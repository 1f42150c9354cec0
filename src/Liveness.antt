-- ===== src/Liveness.antt =====
-- internal/service/orchestrator.go: `evaluateWorkloadHealth`, the liveness probe.
use distributed_container_or.Base.{
  Bool, ◌&&◌, List, pos, add64, leb_ℤ, str_eq, if◌then◌else◌, is_blank, none, some,
}
use distributed_container_or.Model.Floats.{Float, Time, sub_time}
use distributed_container_or.Model.Cluster.{Workload, WorkloadStatus, is_running}
use distributed_container_or.Model.Deploy.{Deployment, ProbeSpec, text}
use distributed_container_or.Model.Storage.{EventLevel}
use distributed_container_or.Store.State.{M, ◌>>=◌, ◌>>◌, done, ignore, for_each}
use distributed_container_or.Store.{list_workloads, list_deployments, upsert_workload, emit_event}
use distributed_container_or.Services.Collecting.{seconds, last_where}
use distributed_container_or.Rollback.{maybe_auto_rollback_for_failures}

-- The probe is due and the workload has no container.
unfoldable pub is_dead : Time → ProbeSpec → Workload → Bool
unfolding sub_time
is_dead now probe w =
    probe.enabled
    && is_running w.status
    && leb_ℤ (seconds probe.initial_delay_seconds) (sub_time now w.created_at)
    && is_blank w.container_id

abbrev pub failed_workload : Workload → Workload
failed_workload w = record w {
  status = WorkloadStatus.failed;
  restart_count = add64 w.restart_count (pos 1);
}

module _ {F : Type 0} ⦃fl : Float F⦄ where
  unfoldable pub evaluate_one : Time → List (Deployment F) → Workload → M F Unit
  unfolding last_where is_dead upsert_workload emit_event
  evaluate_one now deployments w =
      elim (last_where (λ d. str_eq d.id w.deployment_id) deployments) [
        | none ↦ done
        | some dep ↦
            if is_dead now dep.spec.liveness_probe w
            then (do
              upsert_workload now (failed_workload w)
              ignore (
                  emit_event now EventLevel.warn "health" "LivenessProbeFailed"
                    (text "Workload failed liveness probe") w.deployment_id w.id w.node_id)
              maybe_auto_rollback_for_failures now dep)
            else done
      ]

  unfoldable pub evaluate_workload_health : Time → M F Unit
  unfolding list_workloads list_deployments evaluate_one
  evaluate_workload_health now = do
    workloads ← list_workloads
    deployments ← list_deployments
    for_each workloads (evaluate_one now deployments)
