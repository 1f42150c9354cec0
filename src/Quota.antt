-- ===== src/Quota.antt =====
-- internal/service/orchestrator.go: namespaces and their quotas.
pub mod Totals
pub mod Limits
use distributed_container_or.Base.{
  ℕ, suc, ◌+◌, String, Bool, true, false, not, ◌&&◌, ◌||◌, List, [], ◌∷◌, ◌++◌, ℤ, pos, add64,
  mul64, ltb_ℤ, eqb_ℤ, str_eq, if◌then◌else◌, is_blank, trim_space, keep, length, Result, ok, err,
  Error, not_found, message,
}
use distributed_container_or.Model.Floats.{Time}
use distributed_container_or.Model.Cluster.{Resource}
use distributed_container_or.Model.Deploy.{Deployment, DeploymentSpec, Message, text}
use distributed_container_or.Model.Storage.{Namespace, NamespaceQuota, EventLevel}
use distributed_container_or.Store.State.{
  Orchestrator, M, ◌>>=◌, ◌>>◌, pure, fail, done, outcome, ignore,
}
use distributed_container_or.Store.{
  stamped, get_namespace, create_namespace, get_namespace_quota, upsert_namespace_quota,
  list_deployments, emit_event,
}

-- What the deployments of a namespace add up to: their number, and their CPU and memory over all
-- replicas.
pub record Usage : Type 0 where
  pub deployments : ℕ
  pub milli_cpu : ℤ
  pub memory_mb : ℤ

abbrev pub is_unlimited : NamespaceQuota → Bool
is_unlimited q =
    eqb_ℤ q.max_deployments (pos 0)
    && eqb_ℤ q.max_milli_cpu (pos 0)
    && eqb_ℤ q.max_memory_mb (pos 0)

-- `max > 0 && value > max`.
abbrev pub exceeds : ℤ → ℤ → Bool
exceeds limit value = ltb_ℤ (pos 0) limit && ltb_ℤ limit value

abbrev pub no_usage : Usage
no_usage = record { deployments = 0; milli_cpu = pos 0; memory_mb = pos 0 }

abbrev pub or_default : String → String
or_default ns = if is_blank ns then "default" else ns

module _ {F : Type 0} where
  -- The body of the loop, at a deployment of the namespace.
  unfoldable pub charge : Usage → DeploymentSpec F → Usage
  charge u spec = record {
    deployments = suc u.deployments;
    milli_cpu = add64 u.milli_cpu (mul64 spec.replicas spec.resources.milli_cpu);
    memory_mb = add64 u.memory_mb (mul64 spec.replicas spec.resources.memory_mb);
  }

  unfoldable pub usage : String → Usage → List (Deployment F) → Usage
  unfolding charge
  usage ns u [] = u
  usage ns u (d ∷ ds) =
      usage ns (if not (str_eq d.spec.namespace ns) then u else charge u d.spec) ds

  unfoldable pub check_quota : NamespaceQuota → DeploymentSpec F → Usage → Result (Unit {0})
  unfolding charge
  check_quota q spec u =
      let next = charge u spec in
      if exceeds q.max_deployments (pos next.deployments)
      then err (message "namespace quota exceeded: max deployments")
      else (if exceeds q.max_milli_cpu next.milli_cpu
          then err (message "namespace quota exceeded: max milliCPU")
          else (if exceeds q.max_memory_mb next.memory_mb
              then err (message "namespace quota exceeded: max memoryMB")
              else ok tt))

  abbrev pub from_result : {A : Type 0} → Result A → M F A
  from_result r o = (r, o)

  unfoldable pub enforce_namespace_quota : DeploymentSpec F → M F Unit
  unfolding get_namespace_quota list_deployments
  enforce_namespace_quota spec = do
    found ← outcome (get_namespace_quota spec.namespace)
    elim found [
      | err not_found ↦ done
      | err e ↦ fail e
      | ok q ↦ if is_unlimited q then done else (do
        deps ← list_deployments
        from_result (check_quota q spec (usage spec.namespace no_usage deps)))
    ]

  unfoldable pub ensure_namespace_exists : Time → String → M F Unit
  unfolding get_namespace create_namespace
  ensure_namespace_exists now namespace = do
    let trimmed = trim_space namespace
    let name : String = if str_eq trimmed "" then "default" else trimmed
    found ← outcome (get_namespace name)
    elim found [
      | ok _ ↦ done
      | err _ ↦ do
        created ← outcome (
            create_namespace now
              (record { name = name; tenant = "default"; created_at = now; updated_at = now }))
        elim created [
          | ok _ ↦ done
          | err e ↦ do
            again ← outcome (get_namespace name)
            elim again [ ok _ ↦ done | err _ ↦ fail e ]
        ]
    ]

  unfoldable pub create_namespace_service : Time → Namespace → M F Namespace
  unfolding create_namespace emit_event
  create_namespace_service now ns =
      if is_blank ns.name then fail (message "namespace name is required") else (do
        let tenant : String = if is_blank ns.tenant then "default" else ns.tenant
        let created : Time = stamped ns.created_at now
        let next : Namespace = record {
          name = trim_space ns.name;
          tenant = tenant;
          created_at = created;
          updated_at = now;
        }
        create_namespace now next
        ignore (
            emit_event now EventLevel.info "namespace" "NamespaceCreated" (text "Namespace created")
              next.name "" "")
        pure next)

  unfoldable pub upsert_namespace_quota_service : Time → NamespaceQuota → M F NamespaceQuota
  unfolding ensure_namespace_exists upsert_namespace_quota get_namespace_quota
  upsert_namespace_quota_service now q =
      if is_blank q.namespace then fail (message "quota namespace is required") else (do
        ensure_namespace_exists now q.namespace
        let negative =
            ltb_ℤ q.max_deployments (pos 0)
            || ltb_ℤ q.max_milli_cpu (pos 0)
            || ltb_ℤ q.max_memory_mb (pos 0)
        if negative
            then fail (message "quota values cannot be negative")
            else (upsert_namespace_quota now q >> get_namespace_quota q.namespace))
