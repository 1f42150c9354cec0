-- ===== src/Status/Surge.antt =====
-- How many workloads of a deployment are active after a pass over it.
use distributed_container_or.Base.{
  Result-cases, ℕ, ◌+◌, ◌≤◌, ◌<◌, ◌^◌, ◌≡◌, refl, inl, inr, String, Bool, List, ℤ, pos, max, arith,
  length, keep, length-keep, count-le-length, eqb_ℤ, str_eq, Result, ok, Error, sym, subst,
  Bool-cases,
}
use distributed_container_or.Model.Floats.{Float, Time}
use distributed_container_or.Model.Cluster.{Workload}
use distributed_container_or.Model.Deploy.{Deployment}
use distributed_container_or.Store.Table.{values, IsKeyed}
use distributed_container_or.Store.State.{Orchestrator, for_each}
use distributed_container_or.Rollout.{active_workloads, active_for_revision, running_count}
use distributed_container_or.Placement.{enqueue_delete_for_workload}
use distributed_container_or.Reconcile.{
  create_workloads, delete_old, delete_excess, scale_down, old_victims, excess_victims, stall,
}
use distributed_container_or.Status.{settle, follow, roll, plan_for}
use distributed_container_or.Replicas.{Plan}
use distributed_container_or.Replicas.Bounds.{IsInRange, plan_lem}
use distributed_container_or.Reconcile.Totals.{live, delete_all-live, length-active}
use distributed_container_or.Status.Creating.{Gained, create_workloads-Gained}

module _ {F : Type 0} ⦃fl : Float F⦄ (now : Time) (dep : Deployment F) where
  -- No failure, and no active workload more.
  abbrev pub Shrunk : Orchestrator F → Result (Unit {0}) × Orchestrator F → Type 0
  Shrunk o r = (r.0 ≡ ok tt) × Gained now dep 0 o r.1.workloads

  delete_all-Shrunk :
      (vs : List Workload) (o : Orchestrator F)
      → IsKeyed o.workloads
      → Shrunk o (for_each vs (enqueue_delete_for_workload now dep) o)
  delete_all-Shrunk vs o k =
      let lost = delete_all-live now dep vs o k in (lost.0, (lost.1, omega (arith, lost.3)))

  delete_old-Shrunk :
      (m : ℤ) (o : Orchestrator F) → IsKeyed o.workloads → Shrunk o (delete_old now dep m o)
  unfolding delete_old
  delete_old-Shrunk m o k =
      delete_all-Shrunk
        (old_victims dep m
          (active_workloads (keep (λ w. str_eq w.deployment_id dep.id) (values o.workloads))))
        o k

  delete_excess-Shrunk :
      (o : Orchestrator F) → IsKeyed o.workloads → Shrunk o (delete_excess now dep o)
  unfolding delete_excess
  delete_excess-Shrunk o k =
      delete_all-Shrunk
        (excess_victims dep
          (active_workloads (keep (λ w. str_eq w.deployment_id dep.id) (values o.workloads))))
        o k

  pub scale_down-Shrunk :
      (m : ℤ) (o : Orchestrator F) → IsKeyed o.workloads → Shrunk o (scale_down now dep m o)
  unfolding scale_down
  scale_down-Shrunk m o k =
      let a = delete_old-Shrunk m o k in
      let b = delete_excess-Shrunk (delete_old now dep m o).1 a.1.0 in
      let step : scale_down now dep m o ≡ delete_excess now dep (delete_old now dep m o).1 =
        ground (arith, a.0) in
      rw step (b.0, (b.1.0, omega (arith, a.1.1, b.1.1)))

  settle-Shrunk :
      (phase : String) (m : ℤ) (o : Orchestrator F)
      → IsKeyed o.workloads
      → Shrunk o (settle now dep phase m o)
  unfolding settle
  settle-Shrunk phase m o k =
      let s = scale_down-Shrunk m o k in
      elim (Bool-cases (str_eq phase "Canary")) [
        | inl e ↦ (ground (arith, e), (λ key. ground (arith, e, k key), ground (arith, e)))
        | inr e ↦ (
          ground (arith, e, s.0),
          (λ key. ground (arith, e, s.0, s.1.0 key), ground (arith, e, s.0, s.1.1)),
        )
      ]

  stall-workloads :
      (phase : String) (x : Error) (o : Orchestrator F)
      → ((stall now dep phase x o).0 ≡ ok tt)
        × ((stall now dep phase x o).1.workloads ≡ o.workloads)
  unfolding stall
  stall-workloads phase x o = (refl, refl)

  follow-Gained :
      (p : Plan) (n : ℕ) (o : Orchestrator F)
      → IsKeyed o.workloads
      → p.to_create ≡ pos n
      → ((follow now dep p o).0 ≡ ok tt) × Gained now dep n o (follow now dep p o).1.workloads
  unfolding follow
  follow-Gained p n o k e =
      let c = create_workloads-Gained now dep n o k in
      let o₁ = (create_workloads now dep n o).1 in
      elim (Result-cases (create_workloads now dep n o).0) [
        | inl (u, made) ↦
            let s = settle-Shrunk p.phase p.min_available o₁ c.0 in
            let step : follow now dep p o ≡ settle now dep p.phase p.min_available o₁ =
              ground (arith, e, made) in
            rw step (s.0, (s.1.0, omega (arith, s.1.1, c.1)))
        | inr (x, failed) ↦
            let s = stall-workloads p.phase x o₁ in
            let step : follow now dep p o ≡ stall now dep p.phase x o₁ =
              ground (arith, e, failed) in
            rw step (s.0, subst (Gained now dep n o) (sym s.1) c)
      ]

  -- A pass under a normalized spec never fails, and leaves no more active workloads of the deployment
  -- than the replicas with the surge, where there were not more before; the table of workloads
  -- holds each key once before and after, and the counts stay in 64 bits.
  pub roll_lem :
      (o : Orchestrator F) (r s u p : ℕ)
      → IsInRange dep.spec r s u p
      → IsKeyed o.workloads
      → live now dep o < 2 ^ 63
      → ((roll now dep o).0 ≡ ok tt)
        × IsKeyed (roll now dep o).1.workloads
        × (live now dep (roll now dep o).1 ≤ max (live now dep o) (r + s))
  unfolding roll active_for_revision
  roll_lem o r s u p fit k small =
      let mine = keep (λ w. str_eq w.deployment_id dep.id) (values o.workloads) in
      let active = active_workloads mine in
      let of_rev : Workload → Bool = λ w. eqb_ℤ w.version dep.current_revision in
      let l = length-active now dep (values o.workloads) in
      let le : length (active_for_revision active dep.current_revision) ≤ length active =
        omega (arith, length-keep of_rev active, count-le-length of_rev active) in
      let (n, creates, bound, new_bound, available) =
        plan_lem dep.spec r s u p fit (length active)
          (length (active_for_revision active dep.current_revision))
          (running_count (active_for_revision mine dep.current_revision)) (omega (arith, l, small))
          le in
      let f = follow-Gained (plan_for dep mine) n o k creates in
      (f.0, f.1.0, omega (arith, f.1.1, bound, l))
