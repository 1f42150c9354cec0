-- ===== src/Health.antt =====
-- internal/service/orchestrator.go: `updateNodeHealth`, which judges every node by its last heartbeat.
pub mod Classes
pub mod Trends
use Prim.Native.String.{◌++◌ as append}
use distributed_container_or.Base.{
  ℕ, ◌+◌, ◌-◌, ◌<◌, String, Bool, true, false, not, ◌&&◌, ◌||◌, List, [], ◌∷◌, ◌++◌, ℤ, pos, add64,
  div_ℤ, ltb_ℤ, leb_ℤ, eqb_ℤ, ltb, str_eq, if◌then◌else◌, is_blank, slice_stable, length, drop,
  find, Option, none, some, Result, ok, err, Error, message,
}
use distributed_container_or.Model.Floats.{Float, Time, second, sub_time}
use distributed_container_or.Model.Cluster.{
  Resource, Node, NodeStatus, NodeHealth, NodeFailureClass, Workload, WorkloadStatus, is_running,
}
use distributed_container_or.Model.Deploy.{Message, text}
use distributed_container_or.Model.Storage.{EventLevel, NodeHealthSample}
use distributed_container_or.Balancer.{update}
use distributed_container_or.Rollout.{is_active}
use distributed_container_or.Store.State.{
  Orchestrator, M, ◌>>=◌, ◌>>◌, pure, fail, read, modify, done, ignore, for_each,
}
use distributed_container_or.Store.{
  get_node, list_nodes, upsert_node, list_workloads, upsert_workload, enqueue_assignment,
  emit_event,
}
use distributed_container_or.Placement.{delete_assignment}
use distributed_container_or.Nodes.{terminate, remediate_unhealthy_node}

abbrev pub is_critical : NodeFailureClass → Bool
is_critical NodeFailureClass.critical = true
is_critical _ = false

abbrev pub is_warning : NodeFailureClass → Bool
is_warning NodeFailureClass.warning = true
is_warning _ = false

module _ {F : Type 0} ⦃fl : Float F⦄ where
  open fl use {of_int, hundredths, div, lt}

  unfoldable pub safe_utilization : ℤ → ℤ → F
  safe_utilization used alloc =
      if leb_ℤ alloc (pos 0)
      then of_int (pos 0)
      else (let v = div (of_int used) (of_int alloc) in
          if lt v (of_int (pos 0))
          then of_int (pos 0)
          else if lt (of_int (pos 1)) v
          then of_int (pos 1)
          else v)

  abbrev pub is_pressed : F → Bool
  is_pressed u = lt (hundredths 90) u

  -- The figures of one evaluation.
  unfoldable pub measured : Time → ℕ → Node F → Node F
  unfolding safe_utilization sub_time
  measured now ttl n =
      let age = sub_time now n.last_seen in
      record n {
        health = record n.health {
          cpu_utilization = safe_utilization n.used.milli_cpu n.allocatable.milli_cpu;
          memory_utilization = safe_utilization n.used.memory_mb n.allocatable.memory_mb;
          last_heartbeat_age_sec = div_ℤ age second;
          consecutive_missed_ttl = div_ℤ age ttl;
          last_evaluated_at = now;
        };
      }

  abbrev critical_node : Node F → Node F
  critical_node n = record n {
    health = record n.health {
      failure_class = NodeFailureClass.critical;
      reason = "heartbeat missed for multiple TTL intervals";
      isolated = true;
      draining = true;
    };
    status = NodeStatus.down;
  }

  abbrev warned_node : Node F → String → NodeStatus → Node F
  warned_node n reason status = record n {
    health = record n.health { failure_class = NodeFailureClass.warning; reason = reason };
    status = status;
  }

  abbrev healthy_node : Node F → Node F
  healthy_node n = record n {
    health = record n.health {
      failure_class = NodeFailureClass.healthy;
      reason = "";
      isolated = false;
      draining = false;
    };
    status = NodeStatus.ready;
  }

  -- The switch over the figures.
  unfoldable pub judged : Node F → Node F
  judged n =
      let missed = n.health.consecutive_missed_ttl in
      if leb_ℤ (pos 2) missed
      then critical_node n
      else (if leb_ℤ (pos 1) missed
            || is_pressed n.health.cpu_utilization
            || is_pressed n.health.memory_utilization
          then (if leb_ℤ (pos 1) missed
              then warned_node n "heartbeat delay exceeds TTL" NodeStatus.unknown
              else warned_node n "node resource pressure above threshold" NodeStatus.ready)
          else healthy_node n)

  abbrev sample_of : Node F → NodeHealthSample F
  sample_of n = record {
    node_id = n.id;
    timestamp = n.health.last_evaluated_at;
    cpu_utilization = n.health.cpu_utilization;
    memory_utilization = n.health.memory_utilization;
    failure_class = n.health.failure_class;
  }

  -- The last 256 samples are kept.
  unfoldable pub record_node_health_sample : Node F → M F Unit
  unfolding update
  record_node_health_sample n = modify λ o.
      let samples = o.health_samples n.id ++ sample_of n ∷ [] in
      record o {
        health_samples = update o.health_samples n.id (drop (length samples - 256) samples);
      }

  unfoldable pub update_one : Time → ℕ → Node F → M F Unit
  unfolding measured judged upsert_node record_node_health_sample remediate_unhealthy_node
      emit_event
  update_one now ttl before = do
    let n = judged (measured now ttl before)
    upsert_node now n
    record_node_health_sample n
    if is_critical n.health.failure_class && not (is_critical before.health.failure_class)
        then remediate_unhealthy_node now n.id n.health.reason
          >> ignore (
              emit_event now EventLevel.warn "node" "NodeIsolatedAndDraining"
                (text "Node isolated and draining started") "" "" n.id)
        else (if is_warning n.health.failure_class
            then ignore (
                emit_event now EventLevel.warn "node" "NodeWarning" (text n.health.reason) "" ""
                  n.id)
            else done)

  unfoldable pub update_node_health : Time → M F Unit
  unfolding list_nodes update_one
  update_node_health now = do
    nodes ← list_nodes
    ttl ← read (λ o. o.node_ttl)
    for_each nodes (update_one now ttl)
