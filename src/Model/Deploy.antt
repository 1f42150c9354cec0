-- ===== src/Model/Deploy.antt =====
-- internal/model/types.go: deployments and their rollouts.
use distributed_container_or.Base.{String, Bool, true, false, ℤ, List, Option, Error}
use distributed_container_or.Model.Floats.{Time}
use distributed_container_or.Model.Cluster.{Resource, Toleration, Labels}

pub data DeploymentStatus : Type 0 where
  pending running failed : DeploymentStatus

pub data RolloutStrategyType : Type 0 where
  rolling_update canary unset : RolloutStrategyType
  other : String → RolloutStrategyType

pub record RollingUpdateSpec : Type 0 where
  pub max_unavailable : ℤ
  pub max_surge : ℤ

pub record CanarySpec : Type 0 where
  pub enabled : Bool
  pub percentage : ℤ

pub record RolloutSpec (F : Type 0) : Type 0 where
  pub strategy : RolloutStrategyType
  pub rolling_update : RollingUpdateSpec
  pub canary : CanarySpec
  pub progress_deadline_seconds : ℤ
  pub auto_rollback_on_failure : Bool
  pub max_failed_workloads : ℤ
  pub slo_error_rate_threshold : F
  pub slo_window_seconds : ℤ

pub record ProbeSpec : Type 0 where
  pub enabled : Bool
  pub initial_delay_seconds : ℤ
  pub failure_threshold : ℤ

pub record SecretMountSpec : Type 0 where
  pub secret_name : String
  pub mount_path : String

pub record DeploymentSpec (F : Type 0) : Type 0 where
  pub namespace : String
  pub name : String
  pub image : String
  pub image_pull_secret : String
  pub secret_mounts : List SecretMountSpec
  pub volume_claims : List String
  pub replicas : ℤ
  pub priority : ℤ
  pub resources : Resource
  pub labels : Labels
  pub tolerations : List Toleration
  pub liveness_probe : ProbeSpec
  pub readiness_probe : ProbeSpec
  pub rollout : RolloutSpec F

-- A text, a format with the numbers that fill it, or an error's text.
pub data Message : Type 0 where
  text : String → Message
  format : String → List ℤ → Message
  of_error : Error → Message

pub data DeploymentConditionType : Type 0 where
  available progressing degraded : DeploymentConditionType

pub record DeploymentCondition : Type 0 where
  pub type : DeploymentConditionType
  pub status : Bool
  pub reason : String
  pub message : Message
  pub last_transition_time : Time

pub record DeploymentRevision (F : Type 0) : Type 0 where
  pub revision : ℤ
  pub spec : DeploymentSpec F
  pub created_at : Time

pub record DeploymentRolloutStatus : Type 0 where
  pub phase : String
  pub updated_replicas : ℤ
  pub ready_replicas : ℤ
  pub unavailable_replicas : ℤ
  pub message : Message
  pub started_at : Time
  pub last_updated_at : Time

pub record Deployment (F : Type 0) : Type 0 where
  pub id : String
  pub spec : DeploymentSpec F
  pub generation : ℤ
  pub observed_generation : ℤ
  pub current_revision : ℤ
  pub revision_history : List (DeploymentRevision F)
  pub rollout_status : DeploymentRolloutStatus
  pub owner : String
  pub finalizers : List String
  pub deletion_timestamp : Option Time
  pub status : DeploymentStatus
  pub conditions : List DeploymentCondition
  pub created_at : Time
  pub updated_at : Time

abbrev pub same_type : DeploymentConditionType → DeploymentConditionType → Bool
same_type DeploymentConditionType.available DeploymentConditionType.available = true
same_type DeploymentConditionType.progressing DeploymentConditionType.progressing = true
same_type DeploymentConditionType.degraded DeploymentConditionType.degraded = true
same_type _ _ = false
