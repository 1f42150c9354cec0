-- ===== src/Rollout/Spec.antt =====
-- `normalizeRolloutSpec` brings every field of a rollout into the range that the reconciler expects.
use distributed_container_or.Base.{◌≡◌, ◌≢◌, true, false, pos, ◌≤ℤ◌, arith}
use distributed_container_or.Model.Floats.{Float}
use distributed_container_or.Model.Deploy.{RolloutSpec, RolloutStrategyType}
use distributed_container_or.Rollout.{is_canary, normalize_rollout_spec}

module _ {F : Type 0} ⦃fl : Float F⦄ where
  pub record IsNormal (s : RolloutSpec F) : Type 0 where
    pub strategy : s.strategy ≢ RolloutStrategyType.unset
    pub deadline : pos 0 ≤ℤ s.progress_deadline_seconds
    pub failures : pos 0 ≤ℤ s.max_failed_workloads
    pub window : pos 0 ≤ℤ s.slo_window_seconds
    pub surge : pos 0 ≤ℤ s.rolling_update.max_surge
    pub unavailable : pos 0 ≤ℤ s.rolling_update.max_unavailable
    pub threshold : fl.lt s.slo_error_rate_threshold (fl.of_int (pos 0)) ≡ false
    pub enabled : is_canary s.strategy ≡ true → s.canary.enabled ≡ true
    pub percentage :
        is_canary s.strategy ≡ true
        → (pos 1 ≤ℤ s.canary.percentage) × (s.canary.percentage ≤ℤ pos 100)

  -- Where zero is not less than itself, a normalised rollout has a strategy, no negative limit, and,
  -- if it is a canary, a percentage from 1 to 100 and the canary enabled.
  pub normalize_rollout_spec-IsNormal :
      fl.lt (fl.of_int (pos 0)) (fl.of_int (pos 0)) ≡ false
      → (s : RolloutSpec F) → IsNormal (normalize_rollout_spec s)
  unfolding normalize_rollout_spec
  normalize_rollout_spec-IsNormal zero_not_less s = record {
    strategy = ground arith;
    deadline = ground arith;
    failures = ground arith;
    window = ground arith;
    surge = ground arith;
    unavailable = ground arith;
    threshold = ground arith;
    enabled = ground arith;
    percentage = ground arith;
  }

  -- A rollout that is in range already is left as it is.
  pub normalize_rollout_spec_fixed : (s : RolloutSpec F) → IsNormal s → normalize_rollout_spec s ≡ s
  unfolding normalize_rollout_spec
  normalize_rollout_spec_fixed s n = ground arith

  -- Normalising twice is normalising once, where zero is not less than itself.
  pub normalize_rollout_spec_idem :
      fl.lt (fl.of_int (pos 0)) (fl.of_int (pos 0)) ≡ false
      → (s : RolloutSpec F)
      → normalize_rollout_spec (normalize_rollout_spec s) ≡ normalize_rollout_spec s
  normalize_rollout_spec_idem zero_not_less s =
      normalize_rollout_spec_fixed (normalize_rollout_spec s)
        (normalize_rollout_spec-IsNormal zero_not_less s)
