-- ===== src/Worker/Interfaces.antt =====
-- internal/worker/runner.go: the interfaces of the agent to the server, the runtime and the host.
use distributed_container_or.Base.{String, Bool, List, ℤ, Result}
use distributed_container_or.Model.Cluster.{Resource, Node, Workload, WorkloadStatus, Assignment}

pub record AssignmentClient (F W : Type 0) : Type 0 where
  pub register_node : Node F → W → Result {0} Unit × W
  pub heartbeat : String → Resource → W → Result {0} Unit × W
  pub poll_assignments : String → ℤ → W → Result (List Assignment) × W
  pub list_node_workloads : String → W → Result (List Workload) × W
  pub report_workload_status : String → WorkloadStatus → String → W → Result {0} Unit × W

pub record Runtime (W : Type 0) : Type 0 where
  -- The workload, the image and the secret to pull it with.
  pub run_workload : String → String → String → W → Result String × W
  pub stop_workload : String → String → W → Result {0} Unit × W
  -- The containers by workload.
  pub list_managed_workloads : W → Result (List (String × String)) × W

-- The calls of Go's `os`, the directory of a workload's secrets, and the wait of a backoff, which
-- tells whether the context ended first. `range_keys` is the order in which a map is gone through.
pub record Host (W : Type 0) : Type 0 where
  pub secret_dir : String → String
  pub make_dir : String → W → Result {0} Unit × W
  pub write_file : String → String → W → Result {0} Unit × W
  pub remove_file : String → W → W
  pub wait : ℤ → W → Bool × W
  pub range_keys : List String → List String
