-- ===== src/Reconcile.antt =====
-- internal/service/orchestrator.go: `reconcileDeployment`, in the steps of its body.
pub mod Totals
use distributed_container_or.Base.{
  ℕ, zero, suc, ◌+◌, String, Bool, true, false, not, ◌&&◌, ◌||◌, List, [], ◌∷◌, ◌++◌, ℤ, pos,
  negsuc, pos_part, add64, sub64, mul64, ◌+ℤ◌, div_ℤ, ltb_ℤ, leb_ℤ, eqb_ℤ, str_eq, if◌then◌else◌,
  find, length, Option, none, some, Result, ok, err, Error,
}
use distributed_container_or.Model.Floats.{Float, Time, second, is_zero}
use distributed_container_or.Model.Cluster.{Workload, is_running}
use distributed_container_or.Model.Deploy.{
  Deployment, DeploymentSpec, DeploymentStatus, DeploymentCondition, DeploymentConditionType,
  DeploymentRevision, DeploymentRolloutStatus, Message, text, format, of_error,
}
use distributed_container_or.Model.Storage.{EventLevel}
use distributed_container_or.Store.State.{
  Orchestrator, M, ◌>>=◌, ◌>>◌, pure, fail, read, done, outcome, ignore, for_each,
}
use distributed_container_or.Store.{
  get_deployment, update_deployment, list_workloads_by_deployment, emit_event,
}
use distributed_container_or.Rollout.{
  is_canary, floor_zero, normalize_rollout_spec, is_rollout_in_progress, active_workloads,
  running_count, active_for_revision, old_revision_workloads, min_int, pick_scale_down_victims,
  set_condition,
}
use distributed_container_or.Replicas.{Plan, plan}
use distributed_container_or.Placement.{create_workload_for_deployment, enqueue_delete_for_workload}

abbrev pub condition :
    DeploymentConditionType → Bool → String → Message → Time → DeploymentCondition
condition type status reason body now = record {
  type = type;
  status = status;
  reason = reason;
  message = body;
  last_transition_time = now;
}

abbrev pub exceeded_text : Message
exceeded_text = text "rollout progress deadline exceeded"

module _ {F : Type 0} where
  abbrev pub find_revision : ℤ → List (DeploymentRevision F) → Option (DeploymentRevision F)
  find_revision rev = find (λ r. eqb_ℤ r.revision rev)

  -- `now.After(StartedAt.Add(ProgressDeadlineSeconds * time.Second))`, where a deadline is set and a
  -- rollout runs.
  unfoldable pub deadline_exceeded : Time → Deployment F → Bool
  unfolding is_rollout_in_progress
  deadline_exceeded now dep =
      let seconds = dep.spec.rollout.progress_deadline_seconds in
      let started = dep.rollout_status.started_at in
      is_rollout_in_progress dep.rollout_status.phase
      && ltb_ℤ (pos 0) seconds
      && not (is_zero started)
      && ltb_ℤ (pos started +ℤ mul64 seconds (pos second)) (pos now)

module _ {F : Type 0} ⦃fl : Float F⦄ where
  -- `rollbackDeploymentLocked`: the deployment at the target's spec under a new revision, if the
  -- history has the target.
  unfoldable pub rollback_deployment_locked :
      Time → Deployment F → ℤ → Message → Option (Deployment F)
  unfolding normalize_rollout_spec set_condition
  rollback_deployment_locked now dep target_revision body =
      elim (find_revision target_revision dep.revision_history) [
        | none ↦ none
        | some target ↦
            let spec = record target.spec {
              rollout = normalize_rollout_spec (target.spec).rollout;
            } in
            let revision = add64 dep.current_revision (pos 1) in
            some (record dep {
              spec = spec;
              generation = add64 dep.generation (pos 1);
              current_revision = revision;
              revision_history =
                  dep.revision_history
                  ++ record { revision = revision; spec = spec; created_at = now } ∷ [];
              status = DeploymentStatus.pending;
              rollout_status = record dep.rollout_status {
                phase = "Rollback";
                message = body;
                started_at = now;
                last_updated_at = now;
              };
              conditions =
                  set_condition dep.conditions
                    (condition DeploymentConditionType.progressing true "RollbackStarted" body now);
            })
      ]

  unfoldable pub failed_rollout : Time → Deployment F → Deployment F
  unfolding set_condition
  failed_rollout now dep = record dep {
    status = DeploymentStatus.failed;
    rollout_status = record dep.rollout_status {
      phase = "Failed";
      message = exceeded_text;
      last_updated_at = now;
    };
    conditions =
        set_condition
          (set_condition dep.conditions (
            condition DeploymentConditionType.progressing false "ProgressDeadlineExceeded"
              exceeded_text now))
          (condition DeploymentConditionType.degraded true "ProgressDeadlineExceeded" exceeded_text
            now);
  }

  -- The branch of an exceeded deadline.
  unfoldable pub expire_rollout : Time → Deployment F → M F Unit
  unfolding rollback_deployment_locked failed_rollout emit_event update_deployment
  expire_rollout now dep = do
    let failed = failed_rollout now dep
    let wanted = dep.spec.rollout.auto_rollback_on_failure && ltb_ℤ (pos 1) dep.current_revision
    let rolled_back : Option (Deployment F) =
        if wanted
        then rollback_deployment_locked now failed (sub64 dep.current_revision (pos 1))
            (text "Automatic rollback after progress deadline exceeded")
        else none
    elim rolled_back [
      | none ↦ done
      | some _ ↦ ignore (
          emit_event now EventLevel.warn "rollout" "AutoRollbackTriggered"
            (text "Automatic rollback triggered by progress deadline") dep.id "" "")
    ]
    let final : Deployment F = elim rolled_back [ none ↦ failed | some d ↦ d ]
    ignore (
        emit_event now EventLevel.warn "rollout" "ProgressDeadlineExceeded"
          final.rollout_status.message dep.id "" "")
    update_deployment (record final { updated_at = now })

  -- `for i := 0; i < toCreate; i++`.
  unfoldable pub create_workloads : Time → Deployment F → ℕ → M F Unit
  create_workloads now dep zero = done
  create_workloads now dep (suc n) =
      create_workload_for_deployment now dep >> create_workloads now dep n

  -- What is written where a workload could not be placed.
  unfoldable pub stall : Time → Deployment F → String → Error → M F Unit
  unfolding set_condition update_deployment emit_event
  stall now dep phase e = do
    let progressing =
        condition DeploymentConditionType.progressing true "NoSchedulableNode" (of_error e) now
    let degraded =
        condition DeploymentConditionType.degraded true "SchedulingFailed"
          (text "Scheduler could not place workload") now
    ignore (
        update_deployment (record dep {
          status = DeploymentStatus.pending;
          conditions = set_condition (set_condition dep.conditions progressing) degraded;
          rollout_status = record dep.rollout_status {
            phase = phase;
            message = text "waiting for schedulable nodes";
            last_updated_at = now;
          };
          updated_at = now;
        }))
    ignore (
        emit_event now EventLevel.warn "scheduler" "NoSchedulableNode"
          (text "Scheduler could not place workload") dep.id "" "")

  abbrev pub old_victims : Deployment F → ℤ → List Workload → List Workload
  old_victims dep min_available active =
      let old = old_revision_workloads active dep.current_revision in
      let budget = sub64 (pos (length active)) min_available in
      if ltb_ℤ (pos 0) budget
      then pick_scale_down_victims old (min_int (pos (length old)) budget)
      else []

  abbrev pub excess_victims : Deployment F → List Workload → List Workload
  excess_victims dep active =
      let excess = sub64 (pos (length active)) dep.spec.replicas in
      if ltb_ℤ (pos 0) excess then pick_scale_down_victims active excess else []

  -- The deletions of one pass: of old revisions within the budget,
  unfoldable pub delete_old : Time → Deployment F → ℤ → M F Unit
  unfolding list_workloads_by_deployment
  delete_old now dep min_available = do
    workloads ← list_workloads_by_deployment dep.id
    for_each (old_victims dep min_available (active_workloads workloads))
        (enqueue_delete_for_workload now dep)

  -- then of what exceeds the replicas.
  unfoldable pub delete_excess : Time → Deployment F → M F Unit
  unfolding list_workloads_by_deployment
  delete_excess now dep = do
    workloads ← list_workloads_by_deployment dep.id
    for_each (excess_victims dep (active_workloads workloads)) (enqueue_delete_for_workload now dep)

  unfoldable pub scale_down : Time → Deployment F → ℤ → M F Unit
  scale_down now dep min_available = delete_old now dep min_available >> delete_excess now dep
