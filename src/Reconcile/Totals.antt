-- ===== src/Reconcile/Totals.antt =====
-- How many workloads of a deployment stay active through the deletions of a pass.
use distributed_container_or.Base.{
  ℕ, suc, ◌+◌, ◌-◌, ◌≤◌, ◌<◌, ◌^◌, ◌≡◌, refl, inl, inr, Bool, ◌&&◌, List, [], ◌∷◌, ℤ, pos, pos_part,
  sub64, min, arith, length, keep, count, sub64_pos, sub64_neg, str_eq, Result, ok, Option-cases,
}
use distributed_container_or.Model.Floats.{Float, Time}
use distributed_container_or.Model.Cluster.{Workload, WorkloadStatus}
use distributed_container_or.Model.Deploy.{Deployment}
use distributed_container_or.Store.Table.{lookup, values, IsKeyed, insert-IsKeyed}
use distributed_container_or.Store.Counting.{bit, count-insert}
use distributed_container_or.Store.State.{Orchestrator, for_each}
use distributed_container_or.Rollout.{
  is_active, active_workloads, old_revision_workloads, pick_scale_down_victims, min_int,
}
use distributed_container_or.Rollout.Victims.{pick_scale_down_victims_lem}
use distributed_container_or.Placement.{enqueue_delete_for_workload}
use distributed_container_or.Reconcile.{
  old_victims, excess_victims, delete_old, delete_excess, scale_down,
}

module _ {F : Type 0} ⦃fl : Float F⦄ (now : Time) (dep : Deployment F) where
  abbrev pub is_live : Workload → Bool
  is_live w = str_eq w.deployment_id dep.id && is_active w

  -- The number of the deployment's active workloads.
  abbrev pub live : Orchestrator F → ℕ
  live o = count is_live (values o.workloads)

  pub length-active :
      (ws : List Workload)
      → length (active_workloads (keep (λ w. str_eq w.deployment_id dep.id) ws)) ≡ count is_live ws
  unfolding active_workloads
  length-active [] = refl
  length-active (w ∷ ws) = ground (arith, length-active ws)

  -- Marking workloads as terminating: no error, and as many fewer active ones at most.
  abbrev pub HasLost : ℕ → Orchestrator F → Result (Unit {0}) × Orchestrator F → Type 0
  HasLost n o r =
      (r.0 ≡ ok tt) × IsKeyed r.1.workloads × (live o ≤ n + live r.1) × (live r.1 ≤ live o)

  pub bit_le : (b : Bool) → bit b ≤ 1
  bit_le b = ground arith

  delete-count :
      (v : Workload) (o : Orchestrator F)
      → IsKeyed o.workloads
      → (live o ≤ suc (live (enqueue_delete_for_workload now dep v o).1))
        × (live (enqueue_delete_for_workload now dep v o).1 ≤ live o)
  unfolding enqueue_delete_for_workload
  delete-count v o k =
      let next : Workload = record v { status = WorkloadStatus.terminating; updated_at = now } in
      let counts = count-insert is_live v.id next o.workloads k in
      elim (Option-cases (lookup v.id o.workloads)) [
        | inl e ↦ ground (arith, e, counts)
        | inr (w, e) ↦ ground (arith, e, counts, bit_le (is_live w))
      ]

  delete-live :
      (v : Workload) (o : Orchestrator F)
      → IsKeyed o.workloads
      → HasLost 1 o (enqueue_delete_for_workload now dep v o)
  unfolding enqueue_delete_for_workload
  delete-live v o k = (
    refl,
    insert-IsKeyed v.id _ o.workloads k,
    omega (arith, delete-count v o k),
    omega (arith, delete-count v o k),
  )

  pub delete_all-live :
      (vs : List Workload) (o : Orchestrator F)
      → IsKeyed o.workloads
      → HasLost (length vs) o (for_each vs (enqueue_delete_for_workload now dep) o)
  unfolding for_each
  delete_all-live [] o k = (refl, k, omega arith, omega arith)
  delete_all-live (v ∷ vs) o k =
      let one = delete-live v o k in
      let o' = (enqueue_delete_for_workload now dep v o).1 in
      let rest = delete_all-live vs o' one.1 in
      let step : for_each (v ∷ vs) (enqueue_delete_for_workload now dep) o
          ≡ for_each vs (enqueue_delete_for_workload now dep) o' =
        ground (arith, one.0) in
      rw step (rest.0, rest.1, omega (arith, one.2, rest.2), omega (arith, one.3, rest.3))

  picks-length : (ws : List Workload) (n : ℤ) → length (pick_scale_down_victims ws n) ≤ pos_part n
  picks-length ws n = omega (arith, (pick_scale_down_victims_lem ws n).0)

  old_victims-length :
      (active : List Workload) (m : ℕ)
      → length active < 2 ^ 63
      → m < 2 ^ 63
      → length (old_victims dep (pos m) active) ≤ length active - m
  unfolding min_int
  old_victims-length active m hl hm = ground (
    arith,
    sub64_pos (length active) m hl,
    sub64_neg (length active) m hm,
    picks-length (old_revision_workloads active dep.current_revision) (
        min_int (pos (length (old_revision_workloads active dep.current_revision)))
          (sub64 (pos (length active)) (pos m))),
  )

  excess_victims-length :
      (active : List Workload) (r : ℕ)
      → length active < 2 ^ 63
      → r < 2 ^ 63
      → dep.spec.replicas ≡ pos r
      → length (excess_victims dep active) ≤ length active - r
  excess_victims-length active r hl hr e = ground (
    arith,
    e,
    sub64_pos (length active) r hl,
    sub64_neg (length active) r hr,
    picks-length active (sub64 (pos (length active)) (pos r)),
  )

  delete_old-live :
      (o : Orchestrator F) (m : ℕ)
      → IsKeyed o.workloads
      → live o < 2 ^ 63
      → m < 2 ^ 63
      → HasLost (live o - m) o (delete_old now dep (pos m) o)
  unfolding delete_old
  delete_old-live o m k hl hm =
      let ws = values o.workloads in
      let l = length-active ws in
      let active = active_workloads (keep (λ w. str_eq w.deployment_id dep.id) ws) in
      let lost = delete_all-live (old_victims dep (pos m) active) o k in
      let few = old_victims-length active m (rw l hl) hm in
      (lost.0, lost.1, omega (arith, lost.2, few, l), lost.3)

  delete_excess-live :
      (o : Orchestrator F) (r : ℕ)
      → IsKeyed o.workloads
      → live o < 2 ^ 63
      → r < 2 ^ 63
      → dep.spec.replicas ≡ pos r
      → HasLost (live o - r) o (delete_excess now dep o)
  unfolding delete_excess
  delete_excess-live o r k hl hr e =
      let ws = values o.workloads in
      let l = length-active ws in
      let active = active_workloads (keep (λ w. str_eq w.deployment_id dep.id) ws) in
      let lost = delete_all-live (excess_victims dep active) o k in
      let few = excess_victims-length active r (rw l hl) hr e in
      (lost.0, lost.1, omega (arith, lost.2, few, l), lost.3)

  -- The deletions of a pass do not fail, and never take the active workloads of the deployment below
  -- both the number that must stay available and the replicas, where there were not fewer before.
  pub scale_down_lem :
      (o : Orchestrator F) (r m : ℕ)
      → IsKeyed o.workloads
      → live o < 2 ^ 63
      → dep.spec.replicas ≡ pos r
      → r < 2 ^ 63
      → m < 2 ^ 63
      → ((scale_down now dep (pos m) o).0 ≡ ok tt)
        × (min (live o) (min m r) ≤ live (scale_down now dep (pos m) o).1)
  unfolding scale_down
  scale_down_lem o r m k hl e hr hm =
      let first = delete_old-live o m k hl hm in
      let o' = (delete_old now dep (pos m) o).1 in
      let second = delete_excess-live o' r first.1 (omega (arith, first.3)) hr e in
      let step : scale_down now dep (pos m) o ≡ delete_excess now dep o' =
        ground (arith, first.0) in
      rw step (second.0, omega (arith, first.2, second.2))
