-- ===== src/Rollout.antt =====
-- internal/service/orchestrator.go: the pure helpers of the rollout, from `normalizeRolloutSpec` to
-- `removeFinalizer`, and the replica arithmetic of `reconcileDeployment`.
pub mod Spec
pub mod Conditions
pub mod Victims
use distributed_container_or.Base.{
  ℕ, zero, suc, ◌+◌, String, Bool, true, false, not, ◌&&◌, ◌||◌, List, [], ◌∷◌, ◌++◌, ℤ, pos,
  negsuc, add64, sub64, mul64, div_ℤ, ltb_ℤ, leb_ℤ, eqb_ℤ, str_eq, if◌then◌else◌, keep, count,
  length, take, slice_stable, ltb,
}
use distributed_container_or.Model.Floats.{Float, Time}
use distributed_container_or.Model.Cluster.{
  Workload, WorkloadStatus, is_running, is_pending, same_status,
}
use distributed_container_or.Model.Deploy.{
  RolloutSpec, RollingUpdateSpec, CanarySpec, RolloutStrategyType, DeploymentCondition, same_type,
}

abbrev pub is_canary : RolloutStrategyType → Bool
is_canary RolloutStrategyType.canary = true
is_canary _ = false

abbrev pub default_strategy : RolloutStrategyType → RolloutStrategyType
default_strategy RolloutStrategyType.unset = RolloutStrategyType.rolling_update
default_strategy s = s

-- `if x < 0 { x = 0 }`.
abbrev pub floor_zero : ℤ → ℤ
floor_zero x = if ltb_ℤ x (pos 0) then pos 0 else x

unfoldable pub normalize_canary : CanarySpec → CanarySpec
normalize_canary c =
    let low = if leb_ℤ c.percentage (pos 0) then pos 20 else c.percentage in
    let percentage = if ltb_ℤ (pos 100) low then pos 100 else low in
    record { enabled = true; percentage = percentage }

unfoldable pub normalize_rollout_spec : {F : Type 0} ⦃fl : Float F⦄ → RolloutSpec F → RolloutSpec F
unfolding normalize_canary
normalize_rollout_spec ⦃fl⦄ spec =
    let strategy = default_strategy spec.strategy in
    let zero_f = fl.of_int (pos 0) in
    record spec {
      strategy = strategy;
      progress_deadline_seconds = floor_zero spec.progress_deadline_seconds;
      max_failed_workloads = floor_zero spec.max_failed_workloads;
      slo_error_rate_threshold =
          if fl.lt spec.slo_error_rate_threshold zero_f
          then zero_f
          else spec.slo_error_rate_threshold;
      slo_window_seconds = floor_zero spec.slo_window_seconds;
      rolling_update = record {
        max_surge = floor_zero spec.rolling_update.max_surge;
        max_unavailable = floor_zero spec.rolling_update.max_unavailable;
      };
      canary = if is_canary strategy then normalize_canary spec.canary else spec.canary;
    }

unfoldable pub is_rollout_in_progress : String → Bool
is_rollout_in_progress phase =
    str_eq phase "Progressing"
    || str_eq phase "Canary"
    || str_eq phase "CanaryPromoting"
    || str_eq phase "Autoscaling"
    || str_eq phase "Rollback"

abbrev pub is_active : Workload → Bool
is_active w = is_running w.status || is_pending w.status

unfoldable pub active_workloads : List Workload → List Workload
active_workloads = keep is_active

unfoldable pub running_count : List Workload → ℕ
running_count = count (λ w. is_running w.status)

unfoldable pub active_for_revision : List Workload → ℤ → List Workload
active_for_revision ws rev = keep (λ w. eqb_ℤ w.version rev) ws

unfoldable pub old_revision_workloads : List Workload → ℤ → List Workload
old_revision_workloads ws rev = keep (λ w. not (eqb_ℤ w.version rev)) ws

unfoldable pub running_or_pending_count : List Workload → ℕ
running_or_pending_count = count is_active

unfoldable pub min_int : ℤ → ℤ → ℤ
min_int a b = if ltb_ℤ a b then a else b

unfoldable pub max_int : ℤ → ℤ → ℤ
max_int a b = if ltb_ℤ b a then a else b

-- Pending before running, then the newest first.
abbrev pub victim_first : Workload → Workload → Bool
victim_first a b =
    if not (same_status a.status b.status)
    then is_pending a.status
    else ltb b.created_at a.created_at

-- `candidates[:n]` for a positive count.
abbrev pub take_int {ℓ} : {A : Type ℓ} → ℤ → List A → List A
take_int (pos n) xs = take n xs
take_int (negsuc n) xs = []

unfoldable pub pick_scale_down_victims : List Workload → ℤ → List Workload
pick_scale_down_victims ws n =
    if leb_ℤ n (pos 0)
    then []
    else (let candidates = slice_stable victim_first (keep is_active ws) in
        if ltb_ℤ n (pos (length candidates)) then take_int n candidates else candidates)

-- The loop of `setCondition`: the list so far, and whether a condition was replaced.
unfoldable pub replace_condition :
    List DeploymentCondition → DeploymentCondition → List DeploymentCondition × Bool
replace_condition [] next = ([], false)
replace_condition (c ∷ cs) next =
    let (out, updated) = replace_condition cs next in
    if same_type c.type next.type then (next ∷ out, true) else (c ∷ out, updated)

unfoldable pub set_condition :
    List DeploymentCondition → DeploymentCondition → List DeploymentCondition
unfolding replace_condition
set_condition existing next =
    let (out, updated) = replace_condition existing next in
    if updated then out else out ++ next ∷ []

unfoldable pub remove_finalizer : List String → String → List String
remove_finalizer finalizers target = keep (λ f. not (str_eq f target)) finalizers
