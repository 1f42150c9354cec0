-- ===== src/Deletion/Safety.antt =====
-- When the deletion of a deployment is finished.
use distributed_container_or.Base.{
  ◌≡◌, refl, inl, inr, ◌↔◌, String, false, not, List, [], ◌∷◌, arith, any, keep, none, some, ok,
  str_eq, eq_iff, if◌then◌else◌, Bool-cases, ap, ◌∙◌,
}
use distributed_container_or.Model.Floats.{Time}
use distributed_container_or.Model.Cluster.{Workload, is_terminated}
use distributed_container_or.Model.Deploy.{Deployment}
use distributed_container_or.Store.Table.{lookup, lookup-insert, lookup-erase, values}
use distributed_container_or.Store.State.{Orchestrator, for_each}
use distributed_container_or.Rollout.{remove_finalizer}
use distributed_container_or.Deletion.{clean_one, finish_with, finish_deletion, reconcile_deletion}

module _ {F : Type 0} (now : Time) where
  clean_all-deployments :
      (ws : List Workload) (o : Orchestrator F)
      → ((for_each ws (clean_one now) o).0 ≡ ok tt)
        × ((for_each ws (clean_one now) o).1.deployments ≡ o.deployments)
  unfolding for_each clean_one
  clean_all-deployments [] o = (refl, refl)
  clean_all-deployments (w ∷ ws) o = ground (arith, clean_all-deployments ws (clean_one now w o).1)

  -- The workloads of the deployment are all terminated, and no other finalizer stands.
  abbrev pub IsCleaned : String → Deployment F → Orchestrator F → Type 0
  IsCleaned id dep o =
      (any (λ w. not (is_terminated w.status))
          (keep (λ w. str_eq w.deployment_id id) (values o.workloads))
        ≡ false)
      × (remove_finalizer dep.finalizers "workloads.cleanup" ≡ [])

  finish_with-lookup :
      (dep : Deployment F) (fs : List String) (o : Orchestrator F)
      → (lookup dep.id (finish_with now dep fs o).1.deployments ≡ none) ↔ (fs ≡ [])
  unfolding finish_with
  finish_with-lookup dep [] o = (
    λ _. refl,
    λ _. ground (arith, lookup-erase dep.id dep.id o.deployments, eq_iff dep.id dep.id),
  )
  finish_with-lookup dep (f ∷ fs) o = (
    λ e. ground (
      arith,
      e,
      lookup-insert dep.id dep.id (record dep { finalizers = f ∷ fs }) o.deployments,
      eq_iff dep.id dep.id,
    ),
    λ e. cc e,
  )

  reconcile_steps :
      (dep : Deployment F) (o : Orchestrator F)
      → lookup dep.id o.deployments ≡ some dep
      → reconcile_deletion now dep.id o ≡ (
          let ws = keep (λ w. str_eq w.deployment_id dep.id) (values o.workloads) in
          let o' = (for_each ws (clean_one now) o).1 in
          if any (λ w. not (is_terminated w.status)) ws
          then (ok tt, o')
          else finish_deletion now dep o')
  unfolding reconcile_deletion
  reconcile_steps dep o found = ground (
    arith,
    found,
    (clean_all-deployments (keep (λ w. str_eq w.deployment_id dep.id) (values o.workloads)) o).0,
  )

  -- A pass over a deployment that is being deleted removes it exactly where all its workloads are
  -- terminated already and no other finalizer than that of the workloads stands.
  pub reconcile_deletion_iff :
      (dep : Deployment F) (o : Orchestrator F)
      → lookup dep.id o.deployments ≡ some dep
      → (lookup dep.id (reconcile_deletion now dep.id o).1.deployments ≡ none)
        ↔ IsCleaned dep.id dep o
  unfolding finish_deletion
  reconcile_deletion_iff dep o found =
      let ws = keep (λ w. str_eq w.deployment_id dep.id) (values o.workloads) in
      let o' = (for_each ws (clean_one now) o).1 in
      let kept = ap (lookup dep.id) (clean_all-deployments ws o).1 ∙ found in
      let steps = reconcile_steps dep o found in
      let fs = remove_finalizer dep.finalizers "workloads.cleanup" in
      let finish = finish_with-lookup dep fs o' in
      elim (Bool-cases (any (λ w. not (is_terminated w.status)) ws)) [
        | inl left ↦
            let same : lookup dep.id (reconcile_deletion now dep.id o).1.deployments ≡ some dep =
              ground (arith, left, steps, kept) in
            (λ e. cc (e, same), λ c. cc (c.0, left))
        | inr done ↦
            let same : reconcile_deletion now dep.id o ≡ finish_with now dep fs o' =
              ground (arith, done, steps) in
            rw same (λ e. (done, finish.0 e), λ c. finish.1 c.1)
      ]
