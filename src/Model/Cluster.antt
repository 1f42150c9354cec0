-- ===== src/Model/Cluster.antt =====
-- internal/model/types.go: nodes and workloads.
use distributed_container_or.Base.{String, Bool, true, false, ℤ, List}
use distributed_container_or.Model.Floats.{Time}

pub record Resource : Type 0 where
  pub milli_cpu : ℤ
  pub memory_mb : ℤ

pub record Taint : Type 0 where
  pub key : String
  pub value : String
  pub effect : String

pub record Toleration : Type 0 where
  pub key : String
  pub value : String
  pub effect : String
  pub operator : String

-- A map from texts to texts, its entries in any order. A missing key reads as "".
abbrev pub Labels : Type 0
Labels = List (String × String)

pub data NodeStatus : Type 0 where
  ready unknown down : NodeStatus

pub data NodeFailureClass : Type 0 where
  healthy warning critical : NodeFailureClass

pub record NodeHealth (F : Type 0) : Type 0 where
  pub cpu_utilization : F
  pub memory_utilization : F
  pub last_heartbeat_age_sec : ℤ
  pub consecutive_missed_ttl : ℤ
  pub failure_class : NodeFailureClass
  pub reason : String
  pub isolated : Bool
  pub draining : Bool
  pub last_evaluated_at : Time

pub record Node (F : Type 0) : Type 0 where
  pub id : String
  pub address : String
  pub labels : Labels
  pub taints : List Taint
  pub capacity : Resource
  pub allocatable : Resource
  pub used : Resource
  pub status : NodeStatus
  pub health : NodeHealth F
  pub last_seen : Time

pub data WorkloadStatus : Type 0 where
  pending running failed terminating terminated : WorkloadStatus

pub record Workload : Type 0 where
  pub id : String
  pub deployment_id : String
  pub priority : ℤ
  pub node_id : String
  pub image : String
  pub resources : Resource
  pub status : WorkloadStatus
  pub container_id : String
  pub restart_count : ℤ
  pub version : ℤ
  pub created_at : Time
  pub updated_at : Time

pub record SecretFile : Type 0 where
  pub path : String
  pub content : String

pub record VolumeMount : Type 0 where
  pub claim_name : String
  pub mount_path : String
  pub read_only : Bool

pub data Action : Type 0 where
  create delete unset : Action
  other : String → Action

pub record Assignment : Type 0 where
  pub action : Action
  pub id : String
  pub node_id : String
  pub workload_id : String
  pub image : String
  pub image_pull_secret : String
  pub container_id : String
  pub secret_files : List SecretFile
  pub volume_mounts : List VolumeMount
  pub resources : Resource

abbrev pub is_ready : NodeStatus → Bool
is_ready NodeStatus.ready = true
is_ready _ = false

abbrev pub is_running : WorkloadStatus → Bool
is_running WorkloadStatus.running = true
is_running _ = false

abbrev pub is_pending : WorkloadStatus → Bool
is_pending WorkloadStatus.pending = true
is_pending _ = false

abbrev pub is_failed : WorkloadStatus → Bool
is_failed WorkloadStatus.failed = true
is_failed _ = false

abbrev pub is_terminated : WorkloadStatus → Bool
is_terminated WorkloadStatus.terminated = true
is_terminated _ = false

abbrev pub is_terminating : WorkloadStatus → Bool
is_terminating WorkloadStatus.terminating = true
is_terminating _ = false

abbrev pub same_status : WorkloadStatus → WorkloadStatus → Bool
same_status WorkloadStatus.pending s = is_pending s
same_status WorkloadStatus.running s = is_running s
same_status WorkloadStatus.failed s = is_failed s
same_status WorkloadStatus.terminating s = is_terminating s
same_status WorkloadStatus.terminated s = is_terminated s
