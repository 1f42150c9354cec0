-- ===== src/Status.antt =====
-- internal/service/orchestrator.go: the status that `reconcileDeployment` computes at the end of a
-- pass, and the whole of that handler.
pub mod Settled
pub mod Standstill
pub mod Creating
pub mod Surge
pub mod Outcome
use distributed_container_or.Base.{
  ℕ, String, Bool, true, false, not, ◌&&◌, List, [], ◌∷◌, ℤ, pos, sub64, ltb_ℤ, leb_ℤ, eqb_ℤ,
  str_eq, if◌then◌else◌, length, ◌==◌, Result, ok, err, ◌-◌, pos_part,
}
use distributed_container_or.Model.Floats.{Float, Time}
use distributed_container_or.Model.Cluster.{Workload}
use distributed_container_or.Model.Deploy.{
  Deployment, DeploymentStatus, DeploymentConditionType, DeploymentCondition, Message, text, format,
}
use distributed_container_or.Model.Storage.{EventLevel}
use distributed_container_or.Store.State.{
  Orchestrator, M, ◌>>=◌, ◌>>◌, pure, fail, done, outcome, ignore,
}
use distributed_container_or.Store.{
  get_deployment, update_deployment, list_workloads_by_deployment, emit_event,
}
use distributed_container_or.Rollout.{
  floor_zero, normalize_rollout_spec, active_workloads, running_count, active_for_revision,
  old_revision_workloads, set_condition,
}
use distributed_container_or.Replicas.{Plan, plan}
use distributed_container_or.Reconcile.{
  condition, deadline_exceeded, expire_rollout, create_workloads, stall, scale_down,
}

-- The counts that the status is computed from.
pub record Tally : Type 0 where
  pub updated : ℕ
  pub ready : ℕ
  pub unavailable : ℤ
  pub old : ℕ

unfoldable pub tally : ℤ → ℤ → List Workload → Tally
tally replicas revision active = record {
  updated = length (active_for_revision active revision);
  ready = running_count active;
  unavailable = floor_zero (sub64 replicas (pos (running_count active)));
  old = length (old_revision_workloads active revision);
}

unfoldable pub is_stable : ℤ → Tally → Bool
is_stable replicas t = t.old == 0 && leb_ℤ replicas (pos t.updated) && eqb_ℤ t.unavailable (pos 0)

unfoldable pub is_available_now : ℤ → Tally → Bool
is_available_now replicas t = leb_ℤ replicas (pos t.ready) && t.old == 0

abbrev pub stable_conditions : Time → List DeploymentCondition → List DeploymentCondition
stable_conditions now cs =
    set_condition
      (set_condition cs (
        condition DeploymentConditionType.progressing false "ReconciliationStable"
          (text "Reconciliation reached stable state") now))
      (condition DeploymentConditionType.degraded false "Healthy" (text "Deployment is healthy")
        now)

abbrev pub progress_text : Tally → Message
progress_text t =
    format "rollout in progress: updated=%d ready=%d unavailable=%d old=%d"
      (pos t.updated ∷ pos t.ready ∷ t.unavailable ∷ pos t.old ∷ [])

module _ {F : Type 0} where
  unfoldable pub stable_status : Time → Deployment F → Deployment F
  unfolding set_condition
  stable_status now dep = record dep {
    status = DeploymentStatus.running;
    rollout_status = record dep.rollout_status {
      phase = "Stable";
      message = text "rollout complete";
    };
    conditions = stable_conditions now (
        set_condition dep.conditions (
          condition DeploymentConditionType.available true "DesiredReplicasPlaced"
            (text "Desired replica count has been placed") now));
  }

  unfoldable pub unstable_status : Time → Deployment F → String → Tally → Deployment F
  unfolding is_available_now set_condition
  unstable_status now dep phase t =
      let available = is_available_now dep.spec.replicas t in
      let conditions =
        set_condition
          (set_condition dep.conditions (
            condition DeploymentConditionType.progressing true "RolloutInProgress" (progress_text t)
              now))
          (condition DeploymentConditionType.available available "ReplicaReadiness"
            (text "Availability evaluated") now) in
      if available
      then record dep {
        status = DeploymentStatus.running;
        rollout_status = record dep.rollout_status {
          phase = "Stable";
          message = text "rollout complete";
        };
        conditions = stable_conditions now conditions;
      }
      else record dep {
        status = DeploymentStatus.pending;
        rollout_status = record dep.rollout_status { phase = phase; message = progress_text t };
        conditions = conditions;
      }

  unfoldable pub settled : Time → Deployment F → String → Tally → Deployment F
  unfolding is_stable stable_status unstable_status
  settled now dep phase t =
      let judged =
        if is_stable dep.spec.replicas t
        then stable_status now dep
        else unstable_status now dep phase t in
      record judged {
        observed_generation = judged.generation;
        rollout_status = record judged.rollout_status {
          updated_replicas = pos t.updated;
          ready_replicas = pos t.ready;
          unavailable_replicas = t.unavailable;
          last_updated_at = now;
        };
        updated_at = now;
      }

module _ {F : Type 0} ⦃fl : Float F⦄ where
  -- The rollout as it is read at the start of a pass.
  abbrev pub prepared : Deployment F → Deployment F
  prepared dep = record dep {
    spec = record dep.spec { rollout = normalize_rollout_spec (dep.spec).rollout };
    current_revision = if leb_ℤ dep.current_revision (pos 0) then pos 1 else dep.current_revision;
  }

  -- The rest of the pass, once the new workloads are placed.
  unfoldable pub settle : Time → Deployment F → String → ℤ → M F Unit
  unfolding list_workloads_by_deployment emit_event update_deployment
  settle now dep phase min_available = do
    (if str_eq phase "Canary" then done else scale_down now dep min_available)
    workloads ← list_workloads_by_deployment dep.id
    let t = tally dep.spec.replicas dep.current_revision (active_workloads workloads)
    let final = settled now dep phase t
    ignore (
        emit_event now EventLevel.info "rollout" "RolloutProgress" final.rollout_status.message
          dep.id "" "")
    update_deployment final

  abbrev pub plan_for : Deployment F → List Workload → Plan
  plan_for dep workloads =
      let active = active_workloads workloads in
      let rev = dep.current_revision in
      plan dep.spec (length active) (length (active_for_revision active rev))
        (running_count (active_for_revision workloads rev))

  -- The pass under a plan.
  unfoldable pub follow : Time → Deployment F → Plan → M F Unit
  follow now dep p = do
    created ← outcome (create_workloads now dep (pos_part p.to_create))
    elim created [ err e ↦ stall now dep p.phase e | ok _ ↦ settle now dep p.phase p.min_available ]

  unfoldable pub roll : Time → Deployment F → M F Unit
  unfolding list_workloads_by_deployment
  roll now dep = do
    workloads ← list_workloads_by_deployment dep.id
    follow now dep (plan_for dep workloads)

  unfoldable pub reconcile_deployment : Time → String → M F Unit
  unfolding get_deployment
  reconcile_deployment now id = do
    found ← get_deployment id
    let dep = prepared found
    if deadline_exceeded now dep then expire_rollout now dep else roll now dep
