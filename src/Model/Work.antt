-- ===== src/Model/Work.antt =====
-- internal/model/types.go: jobs, cron jobs, autoscaler policies and their metrics, the cluster's state.
use distributed_container_or.Base.{String, Bool, ℤ, List}
use distributed_container_or.Model.Floats.{Time}
use distributed_container_or.Model.Cluster.{Node, Workload, NodeFailureClass}
use distributed_container_or.Model.Deploy.{Deployment, DeploymentSpec}

pub data JobPhase : Type 0 where
  pending running succeeded failed unset : JobPhase

pub record JobSpec (F : Type 0) : Type 0 where
  pub namespace : String
  pub name : String
  pub template : DeploymentSpec F
  pub completions : ℤ
  pub backoff_limit : ℤ
  pub ttl_seconds : ℤ
  pub history_limit : ℤ
  pub schedule_reason : String

pub record Job (F : Type 0) : Type 0 where
  pub id : String
  pub spec : JobSpec F
  pub status : JobPhase
  pub deployment : String
  pub succeeded : ℤ
  pub failed : ℤ
  pub run_count : ℤ
  pub last_run_at : Time
  pub completed_at : Time
  pub created_at : Time
  pub updated_at : Time

pub record CronJob (F : Type 0) : Type 0 where
  pub namespace : String
  pub name : String
  pub schedule_every_s : ℤ
  pub template : JobSpec F
  pub suspend : Bool
  pub history_limit : ℤ
  pub last_run_at : Time
  pub created_at : Time
  pub updated_at : Time

-- `custom` is a map; a missing name reads as 0.
pub record DeploymentMetricSample (F : Type 0) : Type 0 where
  pub id : String
  pub deployment_id : String
  pub timestamp : Time
  pub cpu_usage : F
  pub memory_usage : F
  pub custom : List (String × F)

pub record AutoscalerPolicy (F : Type 0) : Type 0 where
  pub id : String
  pub deployment_id : String
  pub min_replicas : ℤ
  pub max_replicas : ℤ
  pub target_cpu_utilization : F
  pub target_memory_utilization : F
  pub custom_metric_name : String
  pub target_custom_metric_value : F
  pub predictive_scaling_enabled : Bool
  pub predictive_lookback_samples : ℤ
  pub predictive_scale_factor : F
  pub stabilization_window_sec : ℤ
  pub scale_up_cooldown_sec : ℤ
  pub scale_down_cooldown_sec : ℤ
  pub last_scale_at : Time
  pub last_scale_direction : String
  pub created_at : Time
  pub updated_at : Time

pub record ClusterState (F : Type 0) : Type 0 where
  pub nodes : List (Node F)
  pub deployments : List (Deployment F)
  pub workloads : List Workload

pub record NodeHealthTrend (F : Type 0) : Type 0 where
  pub node_id : String
  pub sample_count : ℤ
  pub avg_cpu_utilization : F
  pub avg_memory_utilization : F
  pub max_cpu_utilization : F
  pub max_memory_utilization : F
  pub current_failure_class : NodeFailureClass
  pub anomaly_detected : Bool
  pub anomaly_reason : String
  pub last_evaluated_at : Time
