-- ===== src/Model/Storage.antt =====
-- internal/model/types.go: namespaces, quotas, volumes, leases, policies, services and endpoints.
use distributed_container_or.Base.{String, Bool, true, false, ℤ, List}
use distributed_container_or.Model.Floats.{Time}
use distributed_container_or.Model.Cluster.{Labels, NodeFailureClass}
use distributed_container_or.Model.Deploy.{Message}

pub record Namespace : Type 0 where
  pub name : String
  pub tenant : String
  pub created_at : Time
  pub updated_at : Time

pub record NamespaceQuota : Type 0 where
  pub namespace : String
  pub max_deployments : ℤ
  pub max_milli_cpu : ℤ
  pub max_memory_mb : ℤ
  pub created_at : Time
  pub updated_at : Time

pub record Secret : Type 0 where
  pub namespace : String
  pub name : String
  pub contents : Labels
  pub created_at : Time
  pub updated_at : Time

pub data PersistentVolumePhase : Type 0 where
  available bound released unset : PersistentVolumePhase

pub record PersistentVolume : Type 0 where
  pub name : String
  pub capacity_mb : ℤ
  pub storage_class : String
  pub access_mode : String
  pub claim_namespace : String
  pub claim_name : String
  pub bound_deployment : String
  pub phase : PersistentVolumePhase
  pub created_at : Time
  pub updated_at : Time

pub data PersistentVolumeClaimPhase : Type 0 where
  pending bound unset : PersistentVolumeClaimPhase

pub record PersistentVolumeClaim : Type 0 where
  pub namespace : String
  pub name : String
  pub requested_capacity : ℤ
  pub storage_class : String
  pub access_mode : String
  pub volume_name : String
  pub phase : PersistentVolumeClaimPhase
  pub created_at : Time
  pub updated_at : Time

pub record NetworkPolicyPeer : Type 0 where
  pub namespace : String
  pub labels : Labels

pub record NetworkPolicyRule : Type 0 where
  pub from : List NetworkPolicyPeer
  pub to : List NetworkPolicyPeer
  pub port : ℤ

pub record NetworkPolicy : Type 0 where
  pub namespace : String
  pub name : String
  pub pod_selector : Labels
  pub ingress : List NetworkPolicyRule
  pub egress : List NetworkPolicyRule
  pub group : String
  pub created_at : Time
  pub updated_at : Time

pub record RoleBinding : Type 0 where
  pub namespace : String
  pub name : String
  pub subject : String
  pub roles : List String
  pub inherits : List String
  pub created_at : Time
  pub updated_at : Time

pub record ControllerLease : Type 0 where
  pub leader_id : String
  pub expires_at : Time
  pub term : ℤ
  pub updated_at : Time

pub record ControlPlaneTransition : Type 0 where
  pub id : String
  pub node_id : String
  pub term : ℤ
  pub action : String
  pub description : String
  pub created_at : Time

pub data ServiceProtocol : Type 0 where
  tcp udp : ServiceProtocol
  other : String → ServiceProtocol

pub record ServicePort : Type 0 where
  pub name : String
  pub port : ℤ
  pub target_port : ℤ
  pub node_port : ℤ
  pub protocol : ServiceProtocol

pub data ServiceType : Type 0 where
  cluster_ip node_port unset : ServiceType
  other : String → ServiceType

pub record ServiceSpec : Type 0 where
  pub namespace : String
  pub name : String
  pub selector : Labels
  pub ports : List ServicePort
  pub type : ServiceType

pub record Service : Type 0 where
  pub id : String
  pub spec : ServiceSpec
  pub cluster_ip : String
  pub dns_record_ttl_seconds : ℤ
  pub created_at : Time
  pub updated_at : Time

pub record ServiceEndpoint : Type 0 where
  pub id : String
  pub service_id : String
  pub workload_id : String
  pub node_id : String
  pub address : String
  pub port : ℤ
  pub protocol : ServiceProtocol
  pub ready : Bool
  pub updated_at : Time

pub data EventLevel : Type 0 where
  info warn error : EventLevel

pub record Event : Type 0 where
  pub id : String
  pub timestamp : Time
  pub level : EventLevel
  pub type : String
  pub reason : String
  pub message : Message
  pub deployment_id : String
  pub workload_id : String
  pub node_id : String

pub record NodeHealthSample (F : Type 0) : Type 0 where
  pub node_id : String
  pub timestamp : Time
  pub cpu_utilization : F
  pub memory_utilization : F
  pub failure_class : NodeFailureClass

abbrev pub is_available : PersistentVolumePhase → Bool
is_available PersistentVolumePhase.available = true
is_available _ = false

abbrev pub is_bound : PersistentVolumeClaimPhase → Bool
is_bound PersistentVolumeClaimPhase.bound = true
is_bound _ = false
