-- ===== src/Samples/Storage.antt =====
-- The theorems on volumes and quotas at concrete claims and deployments.
use distributed_container_or.Base.{
  arith, is_blank, ◌≡◌, ◌≢◌, refl, ◌↔◌, String, true, List, [], ◌∷◌, ℤ, pos, ◌≤ℤ◌, ok, some, find,
  Elem, slice_stable, eq_iff,
}
use distributed_container_or.Model.Storage.{
  PersistentVolume, PersistentVolumePhase, PersistentVolumeClaim, PersistentVolumeClaimPhase,
  NamespaceQuota,
}
use distributed_container_or.Store.Table.{lookup, values}
use distributed_container_or.Store.State.{Orchestrator}
use distributed_container_or.Store.{join_key}
use distributed_container_or.Volumes.{smaller, suits, bind_claim}
use distributed_container_or.Volumes.Binding.{
  HoldsClaim, HoldsVolume, bind_claim_lem, bind_claim_twice,
}
use distributed_container_or.Quota.{enforce_namespace_quota}
use distributed_container_or.Quota.Totals.{total}
use distributed_container_or.Quota.Limits.{IsWithin, next_totals, enforce_namespace_quota_iff}
use distributed_container_or.Samples.{hundredths_float, rollout, spec, deployment, empty}

abbrev volume : PersistentVolume
volume = record {
  name = "pv";
  capacity_mb = pos 100;
  storage_class = "fast";
  access_mode = "RWO";
  claim_namespace = "";
  claim_name = "";
  bound_deployment = "";
  phase = PersistentVolumePhase.available;
  created_at = 1;
  updated_at = 1;
}

abbrev claim : String → PersistentVolumeClaim
claim name = record {
  namespace = "default";
  name = name;
  requested_capacity = pos 50;
  storage_class = "fast";
  access_mode = "RWO";
  volume_name = "";
  phase = PersistentVolumeClaimPhase.pending;
  created_at = 1;
  updated_at = 1;
}

abbrev sorted : List PersistentVolume
sorted = slice_stable smaller (volume ∷ [])

first_found : find (suits (claim "a")) sorted ≡ some volume
unfolding slice_stable suits is_blank
first_found = refl

bind_claim_lem_example :
    Elem volume (volume ∷ [])
    × (suits (claim "a") volume ≡ true)
    × ((other : PersistentVolume)
        → Elem other (volume ∷ [])
        → suits (claim "a") other ≡ true
        → pos 100 ≤ℤ other.capacity_mb)
    × HoldsVolume 9 (claim "a") volume (bind_claim 9 sorted (claim "a") empty).1
    × HoldsClaim 9 (claim "a") volume (bind_claim 9 sorted (claim "a") empty).1
bind_claim_lem_example = bind_claim_lem 9 empty (volume ∷ []) (claim "a") volume refl first_found

apart : join_key "default" "a" ≢ join_key "default" "b"
apart e = cc ((eq_iff (join_key "default" "a") (join_key "default" "b")).1 e)

second_found : find (suits (claim "b")) (volume ∷ []) ≡ some volume
unfolding suits is_blank
second_found = refl

only_found : find (suits (claim "a")) (volume ∷ []) ≡ some volume
unfolding suits is_blank
only_found = refl

abbrev both : Orchestrator ℤ
both = (bind_claim 9 (volume ∷ []) (claim "b") (bind_claim 9 (volume ∷ []) (claim "a") empty).1).1

bind_claim_twice_example :
    HoldsClaim 9 (claim "a") volume both
    × HoldsClaim 9 (claim "b") volume both
    × HoldsVolume 9 (claim "b") volume both
bind_claim_twice_example =
    bind_claim_twice 9 empty (volume ∷ []) (claim "a") (claim "b") volume refl refl apart only_found
      second_found

abbrev quota : NamespaceQuota
quota = record {
  namespace = "default";
  max_deployments = pos 1;
  max_milli_cpu = pos 0;
  max_memory_mb = pos 0;
  created_at = 1;
  updated_at = 1;
}

abbrev limited : Orchestrator ℤ
limited = record empty {
  quotas = ("default", quota) ∷ [];
  deployments = ("d", deployment "d" (spec 0 [] (rollout 1 0))) ∷ [];
}

quota_found : lookup "default" limited.quotas ≡ some quota
unfolding lookup
quota_found = refl

enforce_namespace_quota_iff_example :
    ((enforce_namespace_quota (spec 0 [] (rollout 1 0)) limited).0 ≡ ok tt)
    ↔ IsWithin quota (next_totals limited (spec 0 [] (rollout 1 0)))
unfolding total values
enforce_namespace_quota_iff_example =
    enforce_namespace_quota_iff limited quota (spec 0 [] (rollout 1 0)) quota_found
      ((refl, refl, refl), tt) (refl, refl, refl) (omega arith) (omega arith)
