-- ===== src/Deletion.antt =====
-- internal/service/orchestrator.go: `DeleteDeployment`, which marks a deployment, and
-- `reconcileDeletion`, which ends its workloads and removes it after them.
pub mod Safety
use distributed_container_or.Base.{
  ℕ, String, Bool, true, false, not, ◌||◌, List, [], ◌∷◌, all, any, if◌then◌else◌, Option, none,
  some, Result, ok, err, Error,
}
use distributed_container_or.Model.Floats.{Time}
use distributed_container_or.Model.Cluster.{Workload, WorkloadStatus, is_terminated, is_terminating}
use distributed_container_or.Model.Deploy.{
  Deployment, DeploymentStatus, DeploymentConditionType, text,
}
use distributed_container_or.Model.Storage.{EventLevel}
use distributed_container_or.Store.State.{
  Orchestrator, M, ◌>>=◌, ◌>>◌, pure, fail, done, ignore, for_each,
}
use distributed_container_or.Store.{
  get_deployment, update_deployment, delete_deployment, list_workloads_by_deployment, emit_event,
}
use distributed_container_or.Rollout.{set_condition, remove_finalizer}
use distributed_container_or.Nodes.{terminate}
use distributed_container_or.Reconcile.{condition}

module _ {F : Type 0} where
  unfoldable pub mark_deleted : Time → String → M F Unit
  unfolding get_deployment update_deployment emit_event set_condition
  mark_deleted now id = do
    dep ← get_deployment id
    update_deployment (record dep {
      deletion_timestamp = some now;
      status = DeploymentStatus.pending;
      conditions = set_condition dep.conditions (
          condition DeploymentConditionType.progressing true "DeletionInProgress"
            (text "Deployment marked for deletion") now);
    })
    ignore (
        emit_event now EventLevel.info "reconcile" "DeploymentMarkedForDeletion"
          (text "Deployment marked for deletion") dep.id "" "")

  unfoldable pub clean_one : Time → Workload → M F Unit
  unfolding terminate
  clean_one now w =
      if is_terminating w.status || is_terminated w.status
      then done
      else terminate now EventLevel.info "reconcile" "CleanupAssignmentEnqueued"
          (text "Enqueued workload cleanup assignment") w

  -- The deployment with the finalizers that are left, or its end where none is.
  unfoldable pub finish_with : Time → Deployment F → List String → M F Unit
  unfolding update_deployment delete_deployment emit_event
  finish_with now dep (f ∷ fs) = update_deployment (record dep { finalizers = f ∷ fs })
  finish_with now dep [] =
      delete_deployment dep.id
      >> ignore (
          emit_event now EventLevel.info "reconcile" "DeploymentDeleted"
            (text "Deployment fully deleted after finalizers completed") dep.id "" "")

  unfoldable pub finish_deletion : Time → Deployment F → M F Unit
  finish_deletion now dep =
      finish_with now dep (remove_finalizer dep.finalizers "workloads.cleanup")

  unfoldable pub reconcile_deletion : Time → String → M F Unit
  unfolding get_deployment list_workloads_by_deployment
  reconcile_deletion now id = do
    dep ← get_deployment id
    workloads ← list_workloads_by_deployment id
    for_each workloads (clean_one now)
    if any (λ w. not (is_terminated w.status)) workloads then done else finish_deletion now dep
