-- ===== src/Status/Standstill.antt =====
-- A rollout with neither surge nor unavailability: what a pass of `reconcileDeployment` does.
use distributed_container_or.Base.{
  ℕ, ◌-◌, ◌≤◌, ◌<◌, ◌^◌, ◌≡◌, String, Bool, List, pos, arith, length, keep, length-keep,
  count-le-length, eqb_ℤ, sub64_pos, str_eq, ok, ap, ◌∙◌,
}
use distributed_container_or.Model.Floats.{Float, Time}
use distributed_container_or.Model.Cluster.{Workload}
use distributed_container_or.Model.Deploy.{Deployment}
use distributed_container_or.Store.Table.{values}
use distributed_container_or.Store.State.{Orchestrator, for_each}
use distributed_container_or.Rollout.{active_workloads, active_for_revision, running_count}
use distributed_container_or.Replicas.{Plan}
use distributed_container_or.Replicas.Bounds.{IsInRange, aim-le, to_create-plan, min_available-plan}
use distributed_container_or.Reconcile.{delete_old, delete_excess, scale_down, create_workloads}
use distributed_container_or.Status.{settle, follow, roll}

module _ {F : Type 0} ⦃fl : Float F⦄ where
  abbrev pub active : Deployment F → Orchestrator F → List Workload
  active dep o = active_workloads (keep (λ w. str_eq w.deployment_id dep.id) (values o.workloads))

  scale_down_still :
      (now : Time) (dep : Deployment F) (o : Orchestrator F) (r : ℕ)
      → r < 2 ^ 63
      → dep.spec.replicas ≡ pos r
      → length (active dep o) ≡ r
      → scale_down now dep (pos r) o ≡ (ok tt, o)
  unfolding scale_down delete_old delete_excess for_each
  scale_down_still now dep o r h e full = ground (arith, e, full, sub64_pos r r h)

  settle_still :
      (now : Time) (dep : Deployment F) (phase : String) (o : Orchestrator F) (r : ℕ)
      → r < 2 ^ 63
      → dep.spec.replicas ≡ pos r
      → length (active dep o) ≡ r
      → ((settle now dep phase (pos r) o).1.workloads ≡ o.workloads)
        × ((settle now dep phase (pos r) o).1.assignments ≡ o.assignments)
  unfolding settle
  settle_still now dep phase o r h e full = ground (arith, scale_down_still now dep o r h e full)

  follow_still :
      (now : Time) (dep : Deployment F) (p : Plan) (o : Orchestrator F) (r : ℕ)
      → r < 2 ^ 63
      → dep.spec.replicas ≡ pos r
      → length (active dep o) ≡ r
      → p.to_create ≡ pos 0
      → p.min_available ≡ pos r
      → ((follow now dep p o).1.workloads ≡ o.workloads)
        × ((follow now dep p o).1.assignments ≡ o.assignments)
  unfolding follow create_workloads
  follow_still now dep p o r h e full none_new least =
      rw (none_new, least) (settle_still now dep p.phase o r h e full)

  -- Where a normalized rollout allows neither surge nor unavailability, and as many workloads are active
  -- as there are replicas, a pass changes no workload and sends no assignment, whatever the revisions
  -- of those workloads are: the rollout of a new revision never starts.
  pub roll_still :
      (now : Time) (dep : Deployment F) (o : Orchestrator F) (r p : ℕ)
      → IsInRange dep.spec r 0 0 p
      → length (active dep o) ≡ r
      → ((roll now dep o).1.workloads ≡ o.workloads)
        × ((roll now dep o).1.assignments ≡ o.assignments)
  unfolding roll active_for_revision
  roll_still now dep o r p fit full =
      let of_rev : Workload → Bool = λ w. eqb_ℤ w.version dep.current_revision in
      let small_r : r < 2 ^ 63 = omega (arith, fit.replicas_bound) in
      let total = length (active dep o) in
      let new = length (active_for_revision (active dep o) dep.current_revision) in
      let running = running_count (
        active_for_revision (keep (λ w. str_eq w.deployment_id dep.id) (values o.workloads))
          dep.current_revision) in
      let (t, e, small) = aim-le dep.spec r 0 0 p fit (total - new) running in
      let le : new ≤ total =
        omega (arith, length-keep of_rev (active dep o), count-le-length of_rev (active dep o)) in
      let creates =
        to_create-plan dep.spec r 0 0 p fit total new running t (omega (arith, full)) le e small in
      follow_still now dep _ o r small_r fit.replicas full (creates ∙ ap pos (omega (arith, full)))
        (min_available-plan dep.spec r 0 0 p fit total new running ∙ ap pos (omega arith))
