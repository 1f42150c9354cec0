-- ===== src/Quota/Limits.antt =====
-- A deployment is admitted exactly when its namespace stays within its quota.
use distributed_container_or.Base.{
  ◌+◌, ◌<◌, ◌^◌, ◌≡◌, ◌↔◌, true, ℤ, pos, some, arith, ◌≤ℤ◌, ◌<ℤ◌, ok, All, ap, subst, count, ◌∙◌,
}
use distributed_container_or.Model.Deploy.{DeploymentSpec}
use distributed_container_or.Model.Storage.{NamespaceQuota}
use distributed_container_or.Store.Table.{lookup, values}
use distributed_container_or.Store.State.{Orchestrator}
use distributed_container_or.Quota.Totals.{
  IsPlain, amounts, in_namespace, share, total, usage-total, charge-amounts,
}
use distributed_container_or.Quota.{
  Usage, charge, usage, is_unlimited, check_quota, no_usage, enforce_namespace_quota,
}

-- A limit of 0 or less is no limit.
abbrev pub Within : ℤ → ℤ → Type 0
Within limit value = pos 0 <ℤ limit → value ≤ℤ limit

pub record IsWithin (q : NamespaceQuota) (u : Usage) : Type 0 where
  pub deployments : Within q.max_deployments (pos u.deployments)
  pub milli_cpu : Within q.max_milli_cpu u.milli_cpu
  pub memory_mb : Within q.max_memory_mb u.memory_mb

unlimited-IsWithin : (q : NamespaceQuota) (u : Usage) → is_unlimited q ≡ true → IsWithin q u
unlimited-IsWithin q u e = record {
  deployments = ground arith;
  milli_cpu = ground arith;
  memory_mb = ground arith;
}

module _ {F : Type 0} where
  check_quota_iff :
      (q : NamespaceQuota) (spec : DeploymentSpec F) (u : Usage)
      → (check_quota q spec u ≡ ok tt) ↔ IsWithin q (charge u spec)
  unfolding check_quota
  check_quota_iff q spec u = (
    λ e. record { deployments = ground arith; milli_cpu = ground arith; memory_mb = ground arith },
    λ w. ground (arith, w.deployments, w.milli_cpu, w.memory_mb),
  )

  -- The usage that a new deployment would bring its namespace to.
  abbrev pub next_usage : Orchestrator F → DeploymentSpec F → Usage
  next_usage o spec = charge (usage spec.namespace no_usage (values o.deployments)) spec

  admits-IsWithin :
      (o : Orchestrator F) (q : NamespaceQuota) (spec : DeploymentSpec F)
      → lookup spec.namespace o.quotas ≡ some q
      → ((enforce_namespace_quota spec o).0 ≡ ok tt) ↔ IsWithin q (next_usage o spec)
  unfolding enforce_namespace_quota
  admits-IsWithin o q spec found = ground (
    arith,
    check_quota_iff q spec (usage spec.namespace no_usage (values o.deployments)),
    unlimited-IsWithin q (next_usage o spec),
  )

  -- What a deployment and those of its namespace add up to, with no wrapping.
  abbrev pub next_totals : Orchestrator F → DeploymentSpec F → Usage
  next_totals o spec =
      let deps = values o.deployments in
      amounts (count (in_namespace spec.namespace) deps + 1)
        (total (λ r. r.milli_cpu) spec.namespace deps + share (λ r. r.milli_cpu) spec)
        (total (λ r. r.memory_mb) spec.namespace deps + share (λ r. r.memory_mb) spec)

  -- A namespace with a quota admits a deployment exactly when the number of the namespace's deployments,
  -- their CPU and their memory over all replicas, the new one's included, exceed no limit that is
  -- positive. No replicas and no requests of the deployments are negative, and the sums are below 2^63.
  pub enforce_namespace_quota_iff :
      (o : Orchestrator F) (q : NamespaceQuota) (spec : DeploymentSpec F)
      → lookup spec.namespace o.quotas ≡ some q
      → All (λ d. IsPlain d.spec) (values o.deployments)
      → IsPlain spec
      → total (λ r. r.milli_cpu) spec.namespace (values o.deployments)
          + share (λ r. r.milli_cpu) spec
        < 2 ^ 63
      → total (λ r. r.memory_mb) spec.namespace (values o.deployments)
          + share (λ r. r.memory_mb) spec
        < 2 ^ 63
      → ((enforce_namespace_quota spec o).0 ≡ ok tt) ↔ IsWithin q (next_totals o spec)
  enforce_namespace_quota_iff o q spec found plain own cpu mem =
      let deps = values o.deployments in
      let c = total (λ r. r.milli_cpu) spec.namespace deps in
      let m = total (λ r. r.memory_mb) spec.namespace deps in
      let before : usage spec.namespace no_usage deps
          ≡ amounts (count (in_namespace spec.namespace) deps) c m =
        usage-total spec.namespace deps plain (omega arith) (omega arith) in
      let after : next_usage o spec ≡ next_totals o spec =
        ap (λ u. charge u spec) before ∙ charge-amounts spec _ c m own cpu mem in
      subst (λ u. ((enforce_namespace_quota spec o).0 ≡ ok tt) ↔ IsWithin q u) after
        (admits-IsWithin o q spec found)
