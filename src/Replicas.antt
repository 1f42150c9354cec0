-- ===== src/Replicas.antt =====
-- internal/service/orchestrator.go: the replica arithmetic of `reconcileDeployment`.
pub mod Bounds
use distributed_container_or.Base.{
  ℕ, ◌-◌, String, Bool, true, false, not, ◌&&◌, ℤ, pos, add64, sub64, mul64, div_ℤ, ltb_ℤ, leb_ℤ,
  if◌then◌else◌,
}
use distributed_container_or.Model.Deploy.{DeploymentSpec}
use distributed_container_or.Rollout.{is_canary, floor_zero, min_int}

-- The replica arithmetic of one pass, from the active workloads: `running_new` counts the running
-- ones of the current revision.
pub record Plan : Type 0 where
  pub target : ℤ
  pub phase : String
  pub to_create : ℤ
  pub min_available : ℤ

module _ {F : Type 0} where
  unfoldable pub canary_target : DeploymentSpec F → ℤ
  canary_target spec =
      let share = div_ℤ (mul64 spec.replicas spec.rollout.canary.percentage) 100 in
      let at_least_one = if leb_ℤ share (pos 0) then pos 1 else share in
      if ltb_ℤ spec.replicas at_least_one then spec.replicas else at_least_one

  -- The number of new replicas that the pass aims at, and the phase.
  unfoldable pub aim : DeploymentSpec F → ℕ → ℕ → ℤ × String
  unfolding canary_target
  aim spec old_active running_new =
      let staged =
        is_canary spec.rollout.strategy
        && spec.rollout.canary.enabled
        && ltb_ℤ (pos 0) (pos old_active) in
      if not staged
      then (spec.replicas, "Progressing")
      else (if leb_ℤ (canary_target spec) (pos running_new)
          then (spec.replicas, "CanaryPromoting")
          else (canary_target spec, "Canary"))

  unfoldable pub plan : DeploymentSpec F → ℕ → ℕ → ℕ → Plan
  unfolding aim
  plan spec total_active new_count running_new =
      let (target, phase) = aim spec (total_active - new_count) running_new in
      let surged = add64 spec.replicas spec.rollout.rolling_update.max_surge in
      let max_total = if ltb_ℤ surged spec.replicas then spec.replicas else surged in
      let min_available =
        floor_zero (sub64 spec.replicas spec.rollout.rolling_update.max_unavailable) in
      let create_needed = floor_zero (sub64 target (pos new_count)) in
      let create_budget = floor_zero (sub64 max_total (pos total_active)) in
      record {
        target = target;
        phase = phase;
        to_create = min_int create_needed create_budget;
        min_available = min_available;
      }
