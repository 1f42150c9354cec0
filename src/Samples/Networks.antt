-- ===== src/Samples/Networks.antt =====
-- The theorem on network policies at a concrete policy.
use distributed_container_or.Base.{
  String, Bool, ℤ, ok, is_blank, if◌then◌else◌, ◌≡◌, ◌⊎◌, ◌↔◌, true, [], ◌∷◌, pos,
}
use distributed_container_or.Model.Storage.{NetworkPolicy}
use distributed_container_or.Store.State.{Orchestrator}
use distributed_container_or.Network.{is_network_access_allowed}
use distributed_container_or.Network.Access.{Governs, GovernedIn, is_network_access_allowed_iff}
use distributed_container_or.Samples.{empty}
use distributed_container_or.Samples.Traffic.{shop}

abbrev policy : NetworkPolicy
policy = record {
  namespace = "default";
  name = "only-web";
  pod_selector = ("app", "db") ∷ [];
  ingress =
      record {
        from = record { namespace = ""; labels = ("app", "web") ∷ [] } ∷ [];
        to = [];
        port = pos 80;
      }
      ∷ [];
  egress = [];
  group = "";
  created_at = 1;
  updated_at = 1;
}

abbrev guarded : Orchestrator ℤ
guarded = record empty { policies = ("default:only-web", policy) ∷ [] }

is_network_access_allowed_iff_example :
    (allowed : Bool) × (why : String) × (is_network_access_allowed ""
        (("app", "web") ∷ [])
        shop
        (pos 80)
        guarded
      ≡ (ok (allowed, why), guarded))
    × ((allowed ≡ true) ↔ (
        ((p : NetworkPolicy) → ¬ Governs guarded shop p)
        ⊎ GovernedIn guarded shop (record {
          namespace = if is_blank "" then "default" else "";
          labels = ("app", "web") ∷ [];
          port = pos 80;
        })))
is_network_access_allowed_iff_example =
    is_network_access_allowed_iff guarded shop "" (("app", "web") ∷ []) (pos 80)
