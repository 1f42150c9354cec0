-- ===== src/Network.antt =====
-- internal/service/features.go and internal/store/store.go: network policies, and whether a source may
-- reach a service.
pub mod Peers
pub mod Access
use Prim.Native.String.{◌++◌ as append}
use distributed_container_or.Base.{
  ℕ, String, Bool, true, false, not, ◌&&◌, ◌||◌, List, [], ◌∷◌, ℤ, pos, ltb_ℤ, eqb_ℤ, str_eq,
  if◌then◌else◌, is_blank, equal_fold, keep, any, all, Option, none, some, Result, ok, err, Error,
  message,
}
use distributed_container_or.Model.Floats.{Time}
use distributed_container_or.Model.Cluster.{Labels}
use distributed_container_or.Model.Storage.{
  NetworkPolicy, NetworkPolicyPeer, NetworkPolicyRule, Service, ServiceSpec,
}
use distributed_container_or.Scheduler.{label}
use distributed_container_or.Quota.{or_default, ensure_namespace_exists}
use distributed_container_or.Store.Table.{lookup, insert, values}
use distributed_container_or.Store.State.{
  Orchestrator, M, ◌>>=◌, ◌>>◌, pure, fail, read, modify, or_not_found,
}
use distributed_container_or.Store.{join_key, stamped, with_prefix}

abbrev pub is_nil {ℓ} : {A : Type ℓ} → List A → Bool
is_nil [] = true
is_nil (_ ∷ _) = false

unfoldable pub labels_match_selector : Labels → Labels → Bool
unfolding label
labels_match_selector labels selector =
    if is_nil selector then false else all (λ (k, v). str_eq (label labels k) v) selector

-- Who asks: the namespace, not blank, with the labels, and the port.
pub record Source : Type 0 where
  pub namespace : String
  pub labels : Labels
  pub port : ℤ

unfoldable pub peer_admits : Source → String → NetworkPolicyPeer → Bool
unfolding label
peer_admits source group peer =
    if not (is_blank peer.namespace) && not (equal_fold peer.namespace source.namespace)
    then false
    else if not (is_nil peer.labels) && not (labels_match_selector source.labels peer.labels)
    then false
    else (is_blank group || str_eq (label source.labels "group") group)

-- The answer of a rule that lets the source in.
unfoldable pub rule_verdict : Source → String → NetworkPolicyRule → Option String
unfolding peer_admits
rule_verdict source group rule =
    if ltb_ℤ (pos 0) rule.port && not (eqb_ℤ rule.port source.port)
    then none
    else if is_nil rule.from
    then some "allow_empty_from"
    else (if any (peer_admits source group) rule.from then some "allow_matched_rule" else none)

unfoldable pub rules_verdict : Source → String → List NetworkPolicyRule → Option String
rules_verdict source group [] = none
rules_verdict source group (r ∷ rs) =
    let rest = rules_verdict source group rs in
    elim (rule_verdict source group r) [ some v ↦ some v | none ↦ rest ]

unfoldable pub policies_verdict : Source → List NetworkPolicy → Option String
policies_verdict source [] = none
policies_verdict source (p ∷ ps) =
    let rest = policies_verdict source ps in
    elim (rules_verdict source p.group p.ingress) [ some v ↦ some v | none ↦ rest ]

abbrev pub applies : ServiceSpec → NetworkPolicy → Bool
applies spec p = labels_match_selector spec.selector p.pod_selector

unfoldable pub access_verdict : Source → List NetworkPolicy → Bool × String
access_verdict source [] = (true, "no_applicable_policy")
access_verdict source (p ∷ ps) = elim (policies_verdict source (p ∷ ps)) [
  | some v ↦ (true, v)
  | none ↦ (false, "denied_by_network_policy")
]

module _ {F : Type 0} where
  unfoldable pub upsert_network_policy : Time → NetworkPolicy → M F Unit
  upsert_network_policy now p = modify λ o. record o {
    policies =
        insert (join_key p.namespace p.name)
          (record p { created_at = stamped p.created_at now; updated_at = now }) o.policies;
  }

  unfoldable pub get_network_policy : String → String → M F NetworkPolicy
  get_network_policy ns name = do
    t ← read (λ o. o.policies)
    or_not_found (lookup (join_key ns name) t)

  unfoldable pub list_network_policies : String → M F (List NetworkPolicy)
  unfolding with_prefix
  list_network_policies ns = read λ o. values (with_prefix (append ns ":") o.policies)

  unfoldable pub upsert_policy : Time → NetworkPolicy → M F NetworkPolicy
  unfolding upsert_network_policy get_network_policy
  upsert_policy now given =
      let p : NetworkPolicy = record given { namespace = or_default given.namespace } in
      if is_blank p.name
      then fail (message "network policy name is required")
      else if is_nil p.pod_selector
      then fail (message "network policy podSelector is required")
      else (do
        ensure_namespace_exists now p.namespace
        upsert_network_policy now p
        get_network_policy p.namespace p.name)

  unfoldable pub is_network_access_allowed : String → Labels → Service → ℤ → M F (Bool × String)
  unfolding list_network_policies
  is_network_access_allowed source_namespace source_labels svc port = do
    policies ← list_network_policies svc.spec.namespace
    let source : Source = record {
      namespace = or_default source_namespace;
      labels = source_labels;
      port = port;
    }
    pure (access_verdict source (keep (applies svc.spec) policies))
