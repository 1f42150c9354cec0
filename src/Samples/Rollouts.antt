-- ===== src/Samples/Rollouts.antt =====
-- The rollout's theorems at concrete deployments.
use distributed_container_or.Base.{
  ℕ, ◌+◌, ◌-◌, ◌≤◌, ◌≡◌, refl, Bool, false, List, [], ◌∷◌, ℤ, pos, ◌*ℤ◌, arith, max,
}
use distributed_container_or.Model.Cluster.{Workload}
use distributed_container_or.Model.Deploy.{
  DeploymentSpec, RolloutSpec, RolloutStrategyType, DeploymentCondition, DeploymentConditionType,
  text,
}
use distributed_container_or.Replicas.{plan}
use distributed_container_or.Replicas.Bounds.{IsInRange, plan_lem}
use distributed_container_or.Samples.{hundredths_float, rollout, spec, workload}

abbrev raw : RolloutSpec ℤ
raw = record (rollout 1 0) {
  strategy = RolloutStrategyType.canary;
  canary = record { enabled = false; percentage = pos 250 };
}

zero_not_less :
    hundredths_float.lt (hundredths_float.of_int (pos 0)) (hundredths_float.of_int (pos 0)) ≡ false
unfolding ◌*ℤ◌
zero_not_less = refl

abbrev degraded : Bool → DeploymentCondition
degraded status = record {
  type = DeploymentConditionType.degraded;
  status = status;
  reason = "Healthy";
  message = text "";
  last_transition_time = 1;
}

abbrev workloads : List Workload
workloads = workload "w1" "d" 0 1 3 ∷ workload "w2" "d" 0 1 7 ∷ []

abbrev surging : DeploymentSpec ℤ
surging = spec 0 [] (rollout 1 1)

surging-IsInRange : IsInRange surging 2 1 1 20
surging-IsInRange = record {
  replicas = refl;
  surge = refl;
  unavailable = refl;
  percentage = refl;
  at_most = omega arith;
  replicas_bound = omega arith;
  surge_bound = omega arith;
  unavailable_bound = omega arith;
}

plan_lem_example :
    (n : ℕ) × ((plan surging 2 0 0).to_create ≡ pos n)
    × (2 + n ≤ max 2 (2 + 1))
    × (0 + n ≤ max 0 2)
    × ((plan surging 2 0 0).min_available ≡ pos (2 - 1))
plan_lem_example = plan_lem surging 2 1 1 20 surging-IsInRange 2 0 0 (omega arith) (omega arith)
