-- ===== src/Nodes.antt =====
-- internal/service/orchestrator.go and features.go: a node beats, is drained and is removed.
pub mod Draining
use Prim.Native.String.{◌++◌ as append}
use distributed_container_or.Base.{
  ℕ, ◌+◌, ◌-◌, ◌<◌, String, Bool, true, false, not, ◌&&◌, ◌||◌, List, [], ◌∷◌, ◌++◌, ℤ, pos, add64,
  div_ℤ, ltb_ℤ, leb_ℤ, eqb_ℤ, ltb, str_eq, if◌then◌else◌, is_blank, slice_stable, length, drop,
  find, Option, none, some, Result, ok, err, Error, message,
}
use distributed_container_or.Model.Floats.{Float, Time, second, sub_time}
use distributed_container_or.Model.Cluster.{
  Resource, Node, NodeStatus, NodeHealth, NodeFailureClass, Workload, WorkloadStatus, is_running,
}
use distributed_container_or.Model.Deploy.{Message, text}
use distributed_container_or.Model.Storage.{EventLevel, NodeHealthSample}
use distributed_container_or.Balancer.{update}
use distributed_container_or.Rollout.{is_active}
use distributed_container_or.Store.State.{
  Orchestrator, M, ◌>>=◌, ◌>>◌, pure, fail, read, modify, done, ignore, for_each,
}
use distributed_container_or.Store.{
  get_node, list_nodes, upsert_node, list_workloads, upsert_workload, enqueue_assignment,
  emit_event,
}
use distributed_container_or.Placement.{delete_assignment}

-- A workload is told to end: its record, and the assignment for its node.
abbrev pub terminating : Workload → Workload
terminating w = record w { status = WorkloadStatus.terminating }

abbrev pub is_on : String → Workload → Bool
is_on node_id w = str_eq w.node_id node_id && is_active w

module _ {F : Type 0} where
  unfoldable pub terminate : Time → EventLevel → String → String → Message → Workload → M F Unit
  unfolding upsert_workload enqueue_assignment emit_event
  terminate now level type reason body w = do
    upsert_workload now (terminating w)
    enqueue_assignment (delete_assignment (terminating w))
    ignore (emit_event now level type reason body w.deployment_id w.id w.node_id)

  unfoldable pub remediate_one : Time → String → String → Workload → M F Unit
  unfolding terminate
  remediate_one now node_id reason w =
      if not (is_on node_id w)
      then done
      else terminate now EventLevel.warn "health" "NodeRemediationTriggered"
          (text (append "Workload marked terminating due to node remediation: " reason)) w

  unfoldable pub remediate_unhealthy_node : Time → String → String → M F Unit
  unfolding list_workloads
  remediate_unhealthy_node now node_id reason = do
    workloads ← list_workloads
    for_each workloads (remediate_one now node_id reason)

  unfoldable pub drain_node : Time → String → M F Unit
  unfolding get_node upsert_node
  drain_node now node_id = do
    node ← get_node node_id
    upsert_node now (record node {
      health = record node.health { draining = true; isolated = true };
      status = NodeStatus.unknown;
    })
    remediate_unhealthy_node now node_id "manual drain"

  unfoldable pub remove_node : Time → String → M F Unit
  unfolding drain_node get_node upsert_node
  remove_node now node_id = do
    drain_node now node_id
    node ← get_node node_id
    upsert_node now (record node {
      status = NodeStatus.down;
      health = record node.health { reason = "node removed" };
    })

  unfoldable pub revived : Time → Resource → Node F → Node F
  revived now used node = record node {
    used = used;
    status = NodeStatus.ready;
    last_seen = now;
    health = record node.health {
      last_heartbeat_age_sec = pos 0;
      consecutive_missed_ttl = pos 0;
      isolated = false;
      draining = false;
      failure_class = NodeFailureClass.healthy;
      reason = "";
      last_evaluated_at = now;
    };
  }

  unfoldable pub heartbeat_node : Time → String → Resource → M F Unit
  unfolding get_node upsert_node revived
  heartbeat_node now node_id used = do
    node ← get_node node_id
    upsert_node now (revived now used node)
