-- ===== src/Status/Outcome.antt =====
-- The deployment that a whole pass stores.
use distributed_container_or.Base.{
  ℕ, ◌<◌, ◌^◌, ◌≡◌, ◌≢◌, refl, sym, ap, ◌∙◌, subst, ◌⊎◌, inl, inr, ◌↔◌, String, true, false, List,
  ℤ, pos, pos_part, length, keep, str_eq, if◌then◌else◌, arith, some, ok, err, Error, Bool-cases,
  Result-cases,
}
use distributed_container_or.Model.Floats.{Float, Time}
use distributed_container_or.Model.Cluster.{Workload}
use distributed_container_or.Model.Deploy.{Deployment, DeploymentStatus, DeploymentConditionType}
use distributed_container_or.Store.Table.{lookup, insert, values, IsKeyed, lookup-insert_self}
use distributed_container_or.Store.State.{Orchestrator, M, and_then, done}
use distributed_container_or.Rollout.{active_workloads}
use distributed_container_or.Rollout.Conditions.{is_marked, is_marked-set_condition}
use distributed_container_or.Reconcile.{create_workloads, deadline_exceeded, scale_down, stall}
use distributed_container_or.Status.{
  Tally, stable_status, unstable_status, tally, settled, prepared, settle, plan_for, follow, roll,
  reconcile_deployment,
}
use distributed_container_or.Status.Creating.{create_workloads-Gained}
use distributed_container_or.Status.Surge.{scale_down-Shrunk, roll_lem}
use distributed_container_or.Reconcile.Totals.{live, length-active}
use distributed_container_or.Replicas.Bounds.{IsInRange}
use distributed_container_or.Status.Settled.{IsComplete, settled_lem}

module _ {F : Type 0} ⦃fl : Float F⦄ (now : Time) (dep : Deployment F) where
  abbrev pub mine : Orchestrator F → List Workload
  mine o = keep (λ w. str_eq w.deployment_id dep.id) (values o.workloads)

  -- The deletions of a pass, which a canary does not reach.
  abbrev trimmed : String → ℤ → M F Unit
  trimmed phase m = if str_eq phase "Canary" then done else scale_down now dep m

  trimmed-ok :
      (phase : String) (m : ℤ) (o : Orchestrator F)
      → IsKeyed o.workloads
      → (trimmed phase m o).0 ≡ ok tt
  trimmed-ok phase m o k = elim (Bool-cases (str_eq phase "Canary")) [
    | inl e ↦ rw e refl
    | inr e ↦ rw e (scale_down-Shrunk now dep m o k).0
  ]

  settled-id : (phase : String) (t : Tally) → (settled now dep phase t).id ≡ dep.id
  unfolding settled stable_status unstable_status
  settled-id phase t = ground arith

  -- What `settle` stores, from the state `q` that the deletions leave.
  settle_runs :
      (phase : String) (m : ℤ) (o q : Orchestrator F)
      → trimmed phase m o ≡ (ok tt, q)
      → ((settle now dep phase m o).0 ≡ ok tt)
        × ((settle now dep phase m o).1.workloads ≡ q.workloads)
        × (lookup dep.id (settle now dep phase m o).1.deployments
            ≡ some (
                settled now dep phase
                  (tally dep.spec.replicas dep.current_revision (active_workloads (mine q)))))
  unfolding settle
  settle_runs phase m o q e =
      let final =
        settled now dep phase
          (tally dep.spec.replicas dep.current_revision (active_workloads (mine q))) in
      rw (e, and_then)
        (
          refl,
          refl,
          subst (λ k. lookup k (insert final.id final q.deployments) ≡ some final)
              (settled-id phase _) (lookup-insert_self final.id final q.deployments),
        )

  -- The deployment that a pass leaves, once it has placed its workloads.
  pub record IsSettled (r : ℕ) (active : List Workload) (d : Deployment F) : Type 0 where
    pub running : (d.status ≡ DeploymentStatus.running) ↔ IsComplete r dep.current_revision active
    pub pending : d.status ≢ DeploymentStatus.running → d.status ≡ DeploymentStatus.pending
    pub available :
        (is_marked DeploymentConditionType.available d.conditions ≡ true)
        ↔ (d.status ≡ DeploymentStatus.running)
    pub observed : d.observed_generation ≡ dep.generation

  -- The deployment that a pass leaves where it could not place a workload.
  pub record IsStalled (d : Deployment F) : Type 0 where
    pub status : d.status ≡ DeploymentStatus.pending
    pub degraded : is_marked DeploymentConditionType.degraded d.conditions ≡ true
    pub observed : d.observed_generation ≡ dep.observed_generation

  settled-IsSettled :
      (r : ℕ) (phase : String) (active : List Workload)
      → r < 2 ^ 63
      → length active < 2 ^ 63
      → dep.spec.replicas ≡ pos r
      → IsSettled r active
          (settled now dep phase (tally dep.spec.replicas dep.current_revision active))
  settled-IsSettled r phase active hr ha e =
      let l = settled_lem r dep.current_revision active now dep phase hr ha e in
      subst (λ n. IsSettled r active (settled now dep phase (tally n dep.current_revision active)))
        (sym e) (record { running = l.0; pending = l.1; available = l.2; observed = l.3 })

  stall-IsStalled :
      (phase : String) (e : Error) (o : Orchestrator F)
      → ((stall now dep phase e o).0 ≡ ok tt)
        × ((d : Deployment F) × (lookup dep.id (stall now dep phase e o).1.deployments ≡ some d)
            × IsStalled d)
  unfolding stall
  stall-IsStalled phase e o = (
    refl,
    (
      _,
      lookup-insert_self dep.id _ o.deployments,
      record {
        status = refl;
        degraded = simp (is_marked-set_condition DeploymentConditionType.degraded);
        observed = refl;
      },
    ),
  )

  -- The placements of the pass all succeed, and the deployment is settled over the active workloads that the
  -- pass leaves; or one fails, and the deployment is stalled.
  abbrev pub Ends : ℕ → Orchestrator F → Orchestrator F → Deployment F → Type 0
  Ends r o o' d =
      let created = create_workloads now dep (pos_part (plan_for dep (mine o)).to_create) o in
      ((created.0 ≡ ok tt) × IsSettled r (active_workloads (mine o')) d)
      ⊎ ((e : Error) × (created.0 ≡ err e) × IsStalled d)

  roll-Ends :
      (r : ℕ) (o : Orchestrator F)
      → dep.spec.replicas ≡ pos r
      → r < 2 ^ 63
      → IsKeyed o.workloads
      → length (active_workloads (mine (roll now dep o).1)) < 2 ^ 63
      → ((roll now dep o).0 ≡ ok tt)
        × ((d : Deployment F) × (lookup dep.id (roll now dep o).1.deployments ≡ some d)
            × Ends r o (roll now dep o).1 d)
  unfolding roll follow
  roll-Ends r o e hr k small =
      let p = plan_for dep (mine o) in
      let n = pos_part p.to_create in
      let o₁ = (create_workloads now dep n o).1 in
      elim (Result-cases (create_workloads now dep n o).0) [
        | inl (u, made) ↦
            let step : roll now dep o ≡ settle now dep p.phase p.min_available o₁ =
              rw (made, and_then) refl in
            let k₁ = (create_workloads-Gained now dep n o k).0 in
            let q = (trimmed p.phase p.min_available o₁).1 in
            let runs =
              settle_runs p.phase p.min_available o₁ q
                (ap (λ x. (x, q)) (trimmed-ok p.phase p.min_available o₁ k₁)) in
            let left : mine (roll now dep o).1 ≡ mine q =
              ap (λ t. keep (λ w. str_eq w.deployment_id dep.id) (values t))
                (ap (λ x. x.1.workloads) step ∙ runs.1) in
            let bound = subst (λ ws. length (active_workloads ws) < 2 ^ 63) left small in
            (
              ap (λ x. x.0) step ∙ runs.0,
              (
                _,
                ap (λ x. lookup dep.id x.1.deployments) step ∙ runs.2,
                inl (
                  made,
                  subst
                      (λ ws. IsSettled r (active_workloads ws) (
                        settled now dep p.phase (
                          tally dep.spec.replicas dep.current_revision
                            (active_workloads (mine q)))))
                      (sym left)
                      (settled-IsSettled r p.phase (active_workloads (mine q)) hr bound e),
                ),
              ),
            )
        | inr (x, failed) ↦
            let step : roll now dep o ≡ stall now dep p.phase x o₁ = rw (failed, and_then) refl in
            let s = stall-IsStalled p.phase x o₁ in
            (
              ap (λ y. y.0) step ∙ s.0,
              (s.1.0, ap (λ y. lookup dep.id y.1.deployments) step ∙ s.1.1, inr (x, failed, s.1.2)),
            )
      ]

module _ {F : Type 0} ⦃fl : Float F⦄ (now : Time) where
  -- A pass over a deployment that is stored, and whose rollout is not past its deadline, succeeds and
  -- stores the deployment. Where all its placements succeed, its status is running exactly where no
  -- active workload that the pass leaves is of another revision and at least the replicas run, and
  -- pending otherwise; "Available" is true exactly where it is running; and the generation is observed.
  -- Where a placement fails, its status is pending, "Degraded" is true, and the generation that was
  -- observed stands. The spec's counts stay in 64 bits, as does that of the active workloads, and the
  -- table holds each workload once.
  pub reconcile_deployment_lem :
      (o : Orchestrator F) (id : String) (found : Deployment F) (r s u p : ℕ)
      → lookup id o.deployments ≡ some found
      → deadline_exceeded now (prepared found) ≡ false
      → IsInRange (prepared found).spec r s u p
      → IsKeyed o.workloads
      → live now (prepared found) o < 2 ^ 63
      → ((reconcile_deployment now id o).0 ≡ ok tt)
        × ((d : Deployment F) × (lookup found.id (reconcile_deployment now id o).1.deployments
              ≡ some d)
            × Ends now (prepared found) r o (reconcile_deployment now id o).1 d)
  unfolding reconcile_deployment
  reconcile_deployment_lem o id found r s u p held early fit k small =
      let dep = prepared found in
      let step : reconcile_deployment now id o ≡ roll now dep o = rw (held, and_then, early) refl in
      let after = (roll now dep o).1 in
      let left = roll_lem now dep o r s u p fit k small in
      let few : length (active_workloads (mine now dep after)) < 2 ^ 63 =
        omega
          (arith, left.2, fit.surge_bound, small, length-active now dep (values after.workloads)) in
      subst
        (λ x.
          (x.0 ≡ ok tt)
          × ((d : Deployment F) × (lookup found.id x.1.deployments ≡ some d)
              × Ends now dep r o x.1 d))
        (sym step) (roll-Ends now dep r o fit.replicas (omega (arith, fit.surge_bound)) k few)
