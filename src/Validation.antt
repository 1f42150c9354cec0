-- ===== src/Validation.antt =====
-- internal/api/validation.go: what the servers check of a request before they call the orchestrator.
pub mod Guards
pub mod Ports
pub mod Policies
use distributed_container_or.Base.{
  String, Bool, true, false, not, ◌&&◌, ◌||◌, List, [], ◌∷◌, ℤ, pos, ltb_ℤ, leb_ℤ, eqb_ℤ, str_eq,
  if◌then◌else◌, any, is_blank, Option, none, some, Error, message,
}
use distributed_container_or.Model.Floats.{Float}
use distributed_container_or.Model.Cluster.{Node, Resource, Toleration}
use distributed_container_or.Model.Deploy.{
  DeploymentSpec, RolloutSpec, RolloutStrategyType, ProbeSpec,
}
use distributed_container_or.Model.Storage.{ServiceSpec, ServicePort, ServiceProtocol, ServiceType}
use distributed_container_or.Model.Work.{DeploymentMetricSample, AutoscalerPolicy}
use distributed_container_or.Network.{is_nil}
use distributed_container_or.Services.{is_node_port}

-- A row of `if condition { return error }`: the first condition that holds gives the error.
unfoldable pub guards : List (Bool × String) → Option Error
guards [] = none
guards ((bad, body) ∷ gs) = if bad then some (message body) else guards gs

-- `if err := first; err != nil { return err }`, then the rest.
unfoldable pub or_else : Option Error → Option Error → Option Error
or_else none rest = rest
or_else (some e) rest = some e

abbrev pub is_negative : ℤ → Bool
is_negative x = ltb_ℤ x (pos 0)

abbrev pub is_negative_size : Resource → Bool
is_negative_size r = is_negative r.milli_cpu || is_negative r.memory_mb

abbrev pub is_strategy : RolloutStrategyType → Bool
is_strategy (RolloutStrategyType.other _) = false
is_strategy _ = true

abbrev pub is_protocol : ServiceProtocol → Bool
is_protocol (ServiceProtocol.other _) = false
is_protocol _ = true

abbrev pub is_service_type : ServiceType → Bool
is_service_type (ServiceType.other _) = false
is_service_type _ = true

-- Not from 1 to 65535.
abbrev pub is_no_port : ℤ → Bool
is_no_port x = leb_ℤ x (pos 0) || ltb_ℤ (pos 65_535) x

abbrev pub port_guards : ServicePort → List (Bool × String)
port_guards p =
    (is_no_port p.port, "service port must be between 1 and 65535")
    ∷ (is_no_port p.target_port, "service targetPort must be between 1 and 65535")
    ∷ (not (is_protocol p.protocol), "service protocol must be TCP or UDP")
    ∷ (
      not (eqb_ℤ p.node_port (pos 0))
          && (ltb_ℤ p.node_port (pos 30_000) || ltb_ℤ (pos 32_767) p.node_port),
      "service nodePort must be between 30000 and 32767",
    )
    ∷ []

unfoldable pub check_port : ServicePort → Option Error
unfolding guards
check_port p = guards (port_guards p)

unfoldable pub check_ports : List ServicePort → Option Error
unfolding or_else check_port
check_ports [] = none
check_ports (p ∷ ps) = or_else (check_port p) (check_ports ps)

abbrev pub service_guards : ServiceSpec → List (Bool × String)
service_guards given =
    (is_blank given.name, "service name is required")
    ∷ (is_nil given.selector, "service selector is required")
    ∷ (is_nil given.ports, "service ports are required")
    ∷ []

abbrev pub type_guards : ServiceSpec → List (Bool × String)
type_guards given =
    (not (is_service_type given.type), "service type must be ClusterIP or NodePort")
    ∷ (
      is_node_port given.type && any (λ p. eqb_ℤ p.node_port (pos 0)) given.ports,
      "nodePort is required for NodePort services",
    )
    ∷ []

unfoldable pub validate_service_spec : ServiceSpec → Option Error
unfolding guards or_else check_ports
validate_service_spec given =
    or_else (guards (service_guards given))
      (or_else (check_ports given.ports) (guards (type_guards given)))

module _ {F : Type 0} where
  unfoldable pub validate_node : Node F → Option Error
  unfolding guards
  validate_node given = guards (
      (is_blank given.id, "node id is required")
      ∷ (is_negative_size given.capacity, "node capacity cannot be negative")
      ∷ (is_negative_size given.allocatable, "node allocatable cannot be negative")
      ∷ [])

  abbrev pub deployment_guards : DeploymentSpec F → List (Bool × String)
  deployment_guards given =
      let live = given.liveness_probe in
      let ready = given.readiness_probe in
      let rollout = given.rollout in
      let canary = (given.rollout).canary in
      let rolling = (given.rollout).rolling_update in
      ((is_blank given.name, "deployment name is required")
        ∷ (is_blank given.image, "deployment image is required")
        ∷ (is_negative given.replicas, "replicas cannot be negative")
        ∷ (is_negative given.priority, "priority cannot be negative")
        ∷ (is_negative_size given.resources, "resource requests cannot be negative")
        ∷ (any (λ t. is_blank t.key) given.tolerations, "toleration key is required")
        ∷ (
          is_negative live.initial_delay_seconds || is_negative ready.initial_delay_seconds,
          "probe initialDelaySeconds cannot be negative",
        )
        ∷ (
          is_negative live.failure_threshold || is_negative ready.failure_threshold,
          "probe failureThreshold cannot be negative",
        )
        ∷ (not (is_strategy rollout.strategy), "rollout strategy must be RollingUpdate or Canary")
        ∷ (
          is_negative rolling.max_unavailable || is_negative rolling.max_surge,
          "rollout maxUnavailable and maxSurge cannot be negative",
        )
        ∷ (
          canary.enabled && (leb_ℤ canary.percentage (pos 0) || ltb_ℤ (pos 100) canary.percentage),
          "canary percentage must be between 1 and 100",
        )
        ∷ (
          is_negative rollout.progress_deadline_seconds,
          "rollout progressDeadlineSeconds cannot be negative",
        )
        ∷ (
          is_negative rollout.max_failed_workloads,
          "rollout maxFailedWorkloads cannot be negative",
        )
        ∷ [])

  unfoldable pub validate_deployment_spec : DeploymentSpec F → Option Error
  unfolding guards
  validate_deployment_spec given = guards (deployment_guards given)

module _ {F : Type 0} ⦃fl : Float F⦄ where
  abbrev zero_f : F
  zero_f = fl.of_int (pos 0)

  abbrev below_zero : F → Bool
  below_zero x = fl.lt x zero_f

  abbrev pub policy_guards : AutoscalerPolicy F → List (Bool × String)
  policy_guards given =
      (is_blank given.deployment_id, "deploymentId is required")
      ∷ (ltb_ℤ given.min_replicas (pos 1), "minReplicas must be >= 1")
      ∷ (ltb_ℤ given.max_replicas given.min_replicas, "maxReplicas must be >= minReplicas")
      ∷ (
        below_zero given.target_cpu_utilization
            || below_zero given.target_memory_utilization
            || below_zero given.target_custom_metric_value,
        "target utilization values cannot be negative",
      )
      ∷ (
        not (str_eq given.custom_metric_name "") && fl.le given.target_custom_metric_value zero_f,
        "targetCustomMetricValue must be > 0 when customMetricName is set",
      )
      ∷ (
        is_negative given.stabilization_window_sec
            || is_negative given.scale_up_cooldown_sec
            || is_negative given.scale_down_cooldown_sec,
        "stabilization and cooldown values cannot be negative",
      )
      ∷ (
        is_negative given.predictive_lookback_samples,
        "predictiveLookbackSamples cannot be negative",
      )
      ∷ (below_zero given.predictive_scale_factor, "predictiveScaleFactor cannot be negative")
      ∷ (
        given.predictive_scaling_enabled && eqb_ℤ given.predictive_lookback_samples (pos 1),
        "predictiveLookbackSamples must be >= 2 when predictiveScalingEnabled is true",
      )
      ∷ []

  unfoldable pub validate_autoscaler_policy : AutoscalerPolicy F → Option Error
  unfolding guards
  validate_autoscaler_policy given = guards (policy_guards given)

  -- The map's entries in the order in which they are gone through.
  unfoldable pub check_custom : List (String × F) → Option Error
  unfolding guards or_else
  check_custom [] = none
  check_custom ((k, v) ∷ m) =
      or_else
        (guards (
          (is_blank k, "custom metric name cannot be empty")
          ∷ (below_zero v, "custom metric value cannot be negative")
          ∷ []))
        (check_custom m)

  unfoldable pub validate_deployment_metric_sample : DeploymentMetricSample F → Option Error
  unfolding guards or_else check_custom
  validate_deployment_metric_sample given =
      or_else
        (guards (
          (is_blank given.deployment_id, "deploymentId is required")
          ∷ (
            below_zero given.cpu_usage || below_zero given.memory_usage,
            "cpuUsage and memoryUsage cannot be negative",
          )
          ∷ []))
        (check_custom given.custom)
