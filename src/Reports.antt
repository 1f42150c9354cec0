-- ===== src/Reports.antt =====
-- internal/service/orchestrator.go: what an agent asks and tells, `PollAssignments` and
-- `ReportWorkloadStatus`.
pub mod Termination
use distributed_container_or.Base.{
  ℕ, String, Bool, true, false, not, List, [], ◌∷◌, ℤ, pos, pos_part, add64, sub64, leb_ℤ,
  if◌then◌else◌, keep, str_eq, ◌&&◌, Option, none, some, Result, ok, err, Error, not_found,
}
use distributed_container_or.Model.Floats.{Time}
use distributed_container_or.Model.Cluster.{
  Resource, Node, Workload, WorkloadStatus, Assignment, is_terminated, is_failed,
}
use distributed_container_or.Model.Deploy.{
  Deployment, DeploymentStatus, DeploymentConditionType, text,
}
use distributed_container_or.Model.Storage.{EventLevel}
use distributed_container_or.Store.State.{
  Orchestrator, M, ◌>>=◌, ◌>>◌, pure, fail, done, outcome, ignore,
}
use distributed_container_or.Store.{
  get_workload, upsert_workload, delete_workload, get_node, upsert_node, get_deployment,
  update_deployment, list_workloads, list_workloads_by_deployment, pop_assignments, emit_event,
}
use distributed_container_or.Rollout.{
  running_count, running_or_pending_count, max_int, set_condition,
}
use distributed_container_or.Placement.{release_from}
use distributed_container_or.Reconcile.{condition}
use distributed_container_or.Status.{stable_conditions}

abbrev pub is_expected : WorkloadStatus → Bool
is_expected WorkloadStatus.pending = true
is_expected WorkloadStatus.running = true
is_expected WorkloadStatus.terminating = true
is_expected _ = false

module _ {F : Type 0} where
  unfoldable pub poll_assignments : String → ℤ → M F (List Assignment)
  unfolding pop_assignments
  poll_assignments node_id limit =
      pop_assignments node_id (if leb_ℤ limit (pos 0) then 10 else pos_part limit)

  -- The node of a terminated workload, without its resources, where the node is known.
  unfoldable pub free_node : Time → Workload → M F Unit
  unfolding get_node upsert_node
  free_node now w = do
    found ← outcome (get_node w.node_id)
    elim found [
      | err _ ↦ done
      | ok node ↦ upsert_node now (record node { used = release_from node.used w.resources })
    ]

  -- The deployment as it is written after a workload of it has terminated.
  unfoldable pub completed : Time → Deployment F → ℕ → ℕ → Deployment F
  unfolding set_condition max_int
  completed now dep ready active = record dep {
    status = DeploymentStatus.running;
    rollout_status = record dep.rollout_status {
      phase = "Stable";
      message = text "rollout complete";
      ready_replicas = pos ready;
      updated_replicas = pos active;
      unavailable_replicas = max_int (pos 0) (sub64 dep.spec.replicas (pos ready));
      last_updated_at = now;
    };
    conditions = stable_conditions now (
        set_condition dep.conditions (
          condition DeploymentConditionType.available true "DesiredReplicasPlaced"
            (text "Desired replica count has been placed") now));
    observed_generation = dep.generation;
    updated_at = now;
  }

  unfoldable pub complete_deployment : Time → String → M F Unit
  unfolding get_deployment list_workloads_by_deployment update_deployment
  complete_deployment now id = do
    found ← outcome (get_deployment id)
    elim found [
      | err _ ↦ done
      | ok dep ↦ do
        workloads ← list_workloads_by_deployment dep.id
        let active = running_or_pending_count workloads
        if leb_ℤ (pos active) dep.spec.replicas
            then update_deployment (completed now dep (running_count workloads) active)
            else done
    ]

  unfoldable pub end_workload : Time → Workload → M F Unit
  unfolding delete_workload emit_event
  end_workload now w = do
    free_node now w
    delete_workload w.id
    complete_deployment now w.deployment_id
    ignore (
        emit_event now EventLevel.info "workload" "WorkloadTerminated"
          (text "Workload terminated and resources released") w.deployment_id w.id w.node_id)

  -- The workloads of a node that should run, or are about to end.
  unfoldable pub list_node_workloads : String → M F (List Workload)
  unfolding list_workloads
  list_node_workloads node_id = do
    all_of ← list_workloads
    pure (keep (λ w. str_eq w.node_id node_id && is_expected w.status) all_of)

  unfoldable pub report_workload_status : Time → String → WorkloadStatus → String → M F Unit
  unfolding get_workload upsert_workload
  report_workload_status now id status container_id = do
    found ← outcome (get_workload id)
    elim found [
      | err not_found ↦ done
      | err e ↦ fail e
      | ok w ↦
          if is_terminated status
          then end_workload now w
          else upsert_workload now (record w {
            status = status;
            container_id = container_id;
            restart_count =
                if is_failed status then add64 w.restart_count (pos 1) else w.restart_count;
          })
    ]
