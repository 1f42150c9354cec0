-- ===== src/Samples.antt =====
-- Concrete values on which the theorems and the definitions are tried.
pub mod Scheduling
pub mod Histories
pub mod Balancing
pub mod Rollouts
pub mod Leases
pub mod Storage
pub mod Passes
pub mod Lifecycle
pub mod Networks
pub mod Traffic
pub mod Requests
pub mod Bindings
pub mod Scaling
pub mod Controllers
pub mod Workers
pub mod Tokens
pub mod Gates
pub mod Secrecy
use distributed_container_or.Base.{
  ℕ, ◌*◌, String, Bool, true, false, List, [], ◌∷◌, ℤ, pos, negsuc, ◌+ℤ◌, ◌-ℤ◌, ◌*ℤ◌, div_ℤ, ltb_ℤ,
  leb_ℤ, pos_part, ◌==◌, if◌then◌else◌, Option, none, some,
}
use distributed_container_or.Model.Floats.{Float}
use distributed_container_or.Model.Cluster.{
  Resource, Toleration, Taint, Node, NodeStatus, NodeFailureClass, Workload, WorkloadStatus,
}
use distributed_container_or.Model.Deploy.{
  Deployment, DeploymentSpec, DeploymentStatus, RolloutSpec, RolloutStrategyType, SecretMountSpec,
  text,
}
use distributed_container_or.Scheduler.{new_planner}
use distributed_container_or.Balancer.{new_balancer}
use distributed_container_or.Store.State.{Orchestrator}

abbrev absolute : ℤ → ℤ
absolute z = if ltb_ℤ z (pos 0) then pos 0 -ℤ z else z

-- Numbers in hundredths stand for floating point.
instance abbrev pub hundredths_float : Float ℤ
hundredths_float = record {
  of_int = λ z. z *ℤ pos 100;
  hundredths = pos;
  add = ◌+ℤ◌;
  sub = ◌-ℤ◌;
  mul = λ a b. div_ℤ (a *ℤ b) 100;
  div = λ a b. div_ℤ (a *ℤ pos 100) (pos_part b);
  abs = absolute;
  max_f = λ a b. if ltb_ℤ a b then b else a;
  lt = ltb_ℤ;
  le = leb_ℤ;
  ceil = λ a. div_ℤ (a +ℤ pos 99) 100;
}

abbrev pub size : ℕ → ℕ → Resource
size cpu mem = record { milli_cpu = pos cpu; memory_mb = pos mem }

abbrev pub node : String → List Taint → Resource → Node ℤ
node id taints used = record {
  id = id;
  address = "10.0.0.1:9000";
  labels = ("zone", "a") ∷ [];
  taints = taints;
  capacity = size 4_000 8_192;
  allocatable = size 4_000 8_192;
  used = used;
  status = NodeStatus.ready;
  health = record {
    cpu_utilization = pos 0;
    memory_utilization = pos 0;
    last_heartbeat_age_sec = pos 0;
    consecutive_missed_ttl = pos 0;
    failure_class = NodeFailureClass.healthy;
    reason = "";
    isolated = false;
    draining = false;
    last_evaluated_at = 0;
  };
  last_seen = 5;
}

abbrev pub gpu : Taint
gpu = record { key = "gpu"; value = "yes"; effect = "NoSchedule" }

abbrev pub gpu_toleration : Toleration
gpu_toleration = record { key = "gpu"; value = ""; effect = "NoSchedule"; operator = "Exists" }

abbrev pub rollout : ℕ → ℕ → RolloutSpec ℤ
rollout surge unavailable = record {
  strategy = RolloutStrategyType.rolling_update;
  rolling_update = record { max_unavailable = pos unavailable; max_surge = pos surge };
  canary = record { enabled = false; percentage = pos 20 };
  progress_deadline_seconds = pos 0;
  auto_rollback_on_failure = false;
  max_failed_workloads = pos 0;
  slo_error_rate_threshold = pos 0;
  slo_window_seconds = pos 0;
}

abbrev pub spec : ℕ → List SecretMountSpec → RolloutSpec ℤ → DeploymentSpec ℤ
spec priority mounts r = record {
  namespace = "default";
  name = "web";
  image = "nginx";
  image_pull_secret = "";
  secret_mounts = mounts;
  volume_claims = [];
  replicas = pos 2;
  priority = pos priority;
  resources = size 1_000 512;
  labels = [];
  tolerations = [];
  liveness_probe = record {
    enabled = false;
    initial_delay_seconds = pos 0;
    failure_threshold = pos 0;
  };
  readiness_probe = record {
    enabled = false;
    initial_delay_seconds = pos 0;
    failure_threshold = pos 0;
  };
  rollout = r;
}

abbrev pub deployment : String → DeploymentSpec ℤ → Deployment ℤ
deployment id s = record {
  id = id;
  spec = s;
  generation = pos 2;
  observed_generation = pos 1;
  current_revision = pos 2;
  revision_history = [];
  rollout_status = record {
    phase = "Progressing";
    updated_replicas = pos 0;
    ready_replicas = pos 0;
    unavailable_replicas = pos 0;
    message = text "";
    started_at = 1;
    last_updated_at = 1;
  };
  owner = "ops";
  finalizers = [];
  deletion_timestamp = none;
  status = DeploymentStatus.pending;
  conditions = [];
  created_at = 1;
  updated_at = 1;
}

abbrev pub workload : String → String → ℕ → ℕ → ℕ → Workload
workload id deployment_id priority version created = record {
  id = id;
  deployment_id = deployment_id;
  priority = pos priority;
  node_id = "n1";
  image = "nginx";
  resources = size 1_000 512;
  status = WorkloadStatus.running;
  container_id = "c";
  restart_count = pos 0;
  version = pos version;
  created_at = created;
  updated_at = created;
}

-- The identifiers that a run draws.
abbrev fresh : ℕ → String
fresh n = if n == 0 then "e0" else if n == 1 then "w1" else if n == 2 then "a2" else "x"

abbrev pub empty : Orchestrator ℤ
empty = record {
  scheduler = new_planner "least-loaded" (λ _ _. none);
  balance = new_balancer;
  node_ttl = 30;
  health_samples = λ _. [];
  nodes = [];
  deployments = [];
  workloads = [];
  assignments = [];
  services = [];
  endpoints = [];
  namespaces = [];
  quotas = [];
  secrets = [];
  volumes = [];
  claims = [];
  policies = [];
  role_bindings = [];
  autoscalers = [];
  metrics = [];
  jobs = [];
  cron_jobs = [];
  lease = none;
  transitions = [];
  events = [];
  serial = 0;
  ids = fresh;
  decrypt = none;
}
