-- ===== src/Samples/Histories.antt =====
-- The theorem on the trends of the nodes' health at a concrete history.
use distributed_container_or.Base.{◌≤◌, ◌≡◌, List, [], ◌∷◌, ℤ, pos, length, Elem, ok}
use distributed_container_or.Model.Cluster.{Node, NodeFailureClass}
use distributed_container_or.Model.Storage.{NodeHealthSample}
use distributed_container_or.Model.Work.{NodeHealthTrend}
use distributed_container_or.Store.Table.{values}
use distributed_container_or.Store.State.{Orchestrator}
use distributed_container_or.Health.Trends.{
  wanted, recent, Shows, list_node_health_trends, list_node_health_trends_lem,
}
use distributed_container_or.Samples.{hundredths_float, size, node, empty}
use distributed_container_or.Samples.Scheduling.{ltb_ℤ-IsWeakOrder}

abbrev reading : ℤ → NodeHealthSample ℤ
reading cpu = record {
  node_id = "n1";
  timestamp = 1;
  cpu_utilization = cpu;
  memory_utilization = pos 10;
  failure_class = NodeFailureClass.healthy;
}

abbrev observed : Orchestrator ℤ
observed = record empty {
  nodes = ("n1", node "n1" [] (size 2_000 1_024)) ∷ [];
  health_samples = λ id. reading (pos 30) ∷ reading (pos 20) ∷ reading (pos 95) ∷ [];
}

list_node_health_trends_lem_example :
    (ts : List (NodeHealthTrend ℤ)) × (list_node_health_trends (pos 2) observed ≡ (ok ts, observed))
    × (length ts ≡ length (values observed.nodes))
    × ((n : Node ℤ)
        → Elem n (values observed.nodes)
        → (t : NodeHealthTrend ℤ) × Elem t ts
          × Shows n (recent (pos 2) (observed.health_samples n.id)) t
          × (length (recent (pos 2) (observed.health_samples n.id)) ≤ wanted (pos 2)))
list_node_health_trends_lem_example = list_node_health_trends_lem ltb_ℤ-IsWeakOrder (pos 2) observed
