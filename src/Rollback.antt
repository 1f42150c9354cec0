-- ===== src/Rollback.antt =====
-- internal/service/orchestrator.go: `RollbackDeployment`, and the rollback after failed workloads.
pub mod Revisions
use distributed_container_or.Base.{
  ℕ, String, Bool, true, false, not, ◌&&◌, ◌||◌, List, [], ◌∷◌, ◌++◌, ℤ, pos, add64, sub64, ltb_ℤ,
  leb_ℤ, eqb_ℤ, count, if◌then◌else◌, Option, none, some, Result, ok, err, Error, message,
}
use distributed_container_or.Model.Floats.{Float, Time}
use distributed_container_or.Model.Cluster.{Workload, is_failed}
use distributed_container_or.Model.Deploy.{
  Deployment, DeploymentRevision, DeploymentStatus, DeploymentConditionType, Message, text, format,
}
use distributed_container_or.Model.Storage.{EventLevel}
use distributed_container_or.Store.State.{
  Orchestrator, M, ◌>>=◌, ◌>>◌, pure, fail, done, outcome, ignore,
}
use distributed_container_or.Store.{
  get_deployment, update_deployment, list_workloads_by_deployment, emit_event,
}
use distributed_container_or.Rollout.{normalize_rollout_spec, set_condition}
use distributed_container_or.Reconcile.{condition, find_revision}

-- `if targetRevision <= 0`.
abbrev pub target_or_last : ℤ → ℤ → ℤ
target_or_last target current = if leb_ℤ target (pos 0) then sub64 current (pos 1) else target

-- The error's text has the revision in place of its verb.
abbrev pub no_such_revision : Error
no_such_revision = message "target revision %d not found"

module _ {F : Type 0} ⦃fl : Float F⦄ where
  unfoldable pub rolled_back : Time → ℤ → Deployment F → DeploymentRevision F → Deployment F
  unfolding normalize_rollout_spec set_condition
  rolled_back now target_revision dep target =
      let spec = record target.spec { rollout = normalize_rollout_spec (target.spec).rollout } in
      let revision = add64 dep.current_revision (pos 1) in
      let body = format "Rollback to revision %d started" (target_revision ∷ []) in
      record dep {
        spec = spec;
        generation = add64 dep.generation (pos 1);
        current_revision = revision;
        revision_history =
            dep.revision_history
            ++ record { revision = revision; spec = spec; created_at = now } ∷ [];
        status = DeploymentStatus.pending;
        rollout_status = record dep.rollout_status {
          phase = "Progressing";
          message = body;
          started_at = now;
          last_updated_at = now;
        };
        conditions = set_condition dep.conditions (
            condition DeploymentConditionType.progressing true "RollbackStarted"
              (format "Rollback started from revision %d" (target_revision ∷ [])) now);
        updated_at = now;
      }

  unfoldable pub start_rollback : Time → ℤ → Deployment F → M F (Deployment F)
  unfolding update_deployment emit_event
  start_rollback now target_revision dep =
      elim (find_revision target_revision dep.revision_history) [
        | none ↦ fail no_such_revision
        | some target ↦
            let next = rolled_back now target_revision dep target in
            update_deployment next
            >> (ignore (
                  emit_event now EventLevel.warn "rollout" "RollbackStarted"
                    (format "Rollback to revision %d started" (target_revision ∷ [])) next.id "" "")
                >> pure next)
      ]

  abbrev has_no_history : List (DeploymentRevision F) → Bool
  has_no_history [] = true
  has_no_history (_ ∷ _) = false

  unfoldable pub rollback_deployment : Time → String → ℤ → M F (Deployment F)
  unfolding get_deployment
  rollback_deployment now id target_revision = do
    dep ← get_deployment id
    if has_no_history dep.revision_history
        then fail (message "no revision history available")
        else start_rollback now (target_or_last target_revision dep.current_revision) dep

  unfoldable pub failed_of_revision : Deployment F → List Workload → ℕ
  failed_of_revision dep = count (λ w. eqb_ℤ w.version dep.current_revision && is_failed w.status)

  unfoldable pub maybe_auto_rollback_for_failures : Time → Deployment F → M F Unit
  unfolding list_workloads_by_deployment failed_of_revision rollback_deployment emit_event
  maybe_auto_rollback_for_failures now dep =
      if not dep.spec.rollout.auto_rollback_on_failure || leb_ℤ dep.current_revision (pos 1)
      then done
      else (do
        let limit = dep.spec.rollout.max_failed_workloads
        let threshold = if leb_ℤ limit (pos 0) then pos 1 else limit
        workloads ← list_workloads_by_deployment dep.id
        let failed = failed_of_revision dep workloads
        if ltb_ℤ (pos failed) threshold then done else (do
          rolled ← outcome (rollback_deployment now dep.id (sub64 dep.current_revision (pos 1)))
          elim rolled [
            | err _ ↦ done
            | ok _ ↦ ignore (
                emit_event now EventLevel.warn "rollout" "AutoRollbackTriggered"
                  (format "Automatic rollback triggered after %d failed workload(s)"
                    (pos failed ∷ []))
                  dep.id "" "")
          ]))
