-- ===== src/Rebalance.antt =====
-- internal/service/orchestrator.go and features.go: `RegisterNode` and `rebalanceWorkloads`.
use distributed_container_or.Base.{
  Bool, false, ◌&&◌, List, [], ◌∷◌, ℤ, pos, add64, eqb_ℤ, ltb, str_eq, if◌then◌else◌, is_blank,
  slice_stable, length, find, none, some, message,
}
use distributed_container_or.Model.Floats.{Float, Time}
use distributed_container_or.Model.Cluster.{
  Resource, Node, NodeStatus, NodeHealth, NodeFailureClass, is_running,
}
use distributed_container_or.Model.Deploy.{text}
use distributed_container_or.Model.Storage.{EventLevel}
use distributed_container_or.Store.State.{M, ◌>>=◌, ◌>>◌, fail, done, ignore}
use distributed_container_or.Store.{list_nodes, upsert_node, list_workloads}
use distributed_container_or.Nodes.{terminate}
use distributed_container_or.Health.{safe_utilization}

abbrev pub or_if_zero : ℤ → ℤ → ℤ
or_if_zero x d = if eqb_ℤ x (pos 0) then d else x

module _ {F : Type 0} ⦃fl : Float F⦄ where
  open fl use {of_int, sub, hundredths, lt}

  unfoldable pub load : Node F → F
  unfolding safe_utilization
  load n =
      safe_utilization (add64 n.used.milli_cpu n.used.memory_mb)
        (add64 n.allocatable.milli_cpu n.allocatable.memory_mb)

  abbrev busier : Node F → Node F → Bool
  busier a b = lt (load b) (load a)

  abbrev last_of : Node F → List (Node F) → Node F
  last_of n [] = n
  last_of n (m ∷ ms) = last_of m ms

  -- One running workload of the busiest node is told to end, where the least busy node has a quarter
  -- less to do.
  unfoldable pub relieve : Time → Node F → Node F → M F Unit
  unfolding terminate list_workloads
  relieve now heavy light = if lt (sub (load heavy) (load light)) (hundredths 25) then done else (do
    workloads ← list_workloads
    elim (find (λ w. str_eq w.node_id heavy.id && is_running w.status) workloads) [
      | none ↦ done
      | some w ↦
          terminate now EventLevel.info "rebalance" "WorkloadEvicted"
            (text "Workload evicted for node rebalance") w
    ])

  unfoldable pub rebalance_sorted : Time → List (Node F) → M F Unit
  unfolding relieve
  rebalance_sorted now [] = done
  rebalance_sorted now (heavy ∷ rest) = relieve now heavy (last_of heavy rest)

  unfoldable pub rebalance_workloads : Time → M F Unit
  unfolding list_nodes rebalance_sorted
  rebalance_workloads now = do
    nodes ← list_nodes
    if ltb (length nodes) 2 then done else rebalance_sorted now (slice_stable busier nodes)

  abbrev fresh_health : Time → NodeHealth F
  fresh_health now = record {
    cpu_utilization = of_int (pos 0);
    memory_utilization = of_int (pos 0);
    last_heartbeat_age_sec = pos 0;
    consecutive_missed_ttl = pos 0;
    failure_class = NodeFailureClass.healthy;
    reason = "";
    isolated = false;
    draining = false;
    last_evaluated_at = now;
  }

  unfoldable pub registered : Time → Node F → Node F
  registered now node =
      let capacity : Resource = record {
        milli_cpu = or_if_zero node.capacity.milli_cpu (pos 2_000);
        memory_mb = or_if_zero node.capacity.memory_mb (pos 4_096);
      } in
      record node {
        capacity = capacity;
        allocatable = record {
          milli_cpu = or_if_zero node.allocatable.milli_cpu capacity.milli_cpu;
          memory_mb = or_if_zero node.allocatable.memory_mb capacity.memory_mb;
        };
        status = NodeStatus.ready;
        health = fresh_health now;
        last_seen = now;
      }

  unfoldable pub register_node : Time → Node F → M F Unit
  unfolding registered upsert_node
  register_node now node =
      if is_blank node.id
      then fail (message "node id is required")
      else (upsert_node now (registered now node) >> ignore (rebalance_workloads now))
