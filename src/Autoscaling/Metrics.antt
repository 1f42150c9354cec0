-- ===== src/Autoscaling/Metrics.antt =====
-- internal/service/orchestrator.go: what the metrics of a deployment come to, with `aggregateMetrics`
-- and `predictMetrics`.
use distributed_container_or.Base.{
  String, not, List, [], ◌∷◌, ℤ, pos, ◌+ℤ◌, sub64, mul64, leb_ℤ, ltb, str_eq, if◌then◌else◌, keep,
  length, slice_stable, pos_part,
}
use distributed_container_or.Model.Floats.{Float, Time, second}
use distributed_container_or.Model.Work.{DeploymentMetricSample, AutoscalerPolicy}
use distributed_container_or.Store.Work.{newest}
use distributed_container_or.Network.{is_nil}

-- What a deployment uses: CPU, memory and the policy's custom metric.
pub record Load (F : Type 0) : Type 0 where
  pub cpu : F
  pub memory : F
  pub custom : F

unfoldable pub last_of {ℓ} : {A : Type ℓ} → A → List A → A
last_of x [] = x
last_of x (y ∷ ys) = last_of y ys

module _ {F : Type 0} ⦃fl : Float F⦄ where
  open fl use {of_int, hundredths, add, sub, mul, div, lt, le, ceil}

  abbrev pub zero_f : F
  zero_f = of_int (pos 0)

  -- `custom[name]`.
  unfoldable pub custom_metric : String → List (String × F) → F
  custom_metric name [] = zero_f
  custom_metric name ((k, v) ∷ m) = if str_eq k name then v else custom_metric name m

  abbrev pub custom_of : String → DeploymentMetricSample F → F
  custom_of name s = if str_eq name "" then zero_f else custom_metric name s.custom

  unfoldable pub sum_over : (DeploymentMetricSample F → F) → F → List (DeploymentMetricSample F) → F
  sum_over f total [] = total
  sum_over f total (s ∷ ss) = sum_over f (add total (f s)) ss

  unfoldable pub aggregate_metrics : List (DeploymentMetricSample F) → String → Load F
  unfolding sum_over custom_metric
  aggregate_metrics [] name = record { cpu = zero_f; memory = zero_f; custom = zero_f }
  aggregate_metrics (s ∷ ss) name =
      let samples = s ∷ ss in
      let count = of_int (pos (length samples)) in
      record {
        cpu = div (sum_over (λ x. x.cpu_usage) zero_f samples) count;
        memory = div (sum_over (λ x. x.memory_usage) zero_f samples) count;
        custom = div (sum_over (custom_of name) zero_f samples) count;
      }

  abbrev pub floor_f : F → F
  floor_f x = if lt x zero_f then zero_f else x

  -- The last value and the slope from the first, `factor` steps on.
  unfoldable pub extrapolate : F → F → F → F → F
  extrapolate first last steps factor = add last (mul (div (sub last first) steps) factor)

  unfoldable pub predict_over : List (DeploymentMetricSample F) → String → F → Load F
  unfolding extrapolate last_of custom_metric
  predict_over [] name factor = record { cpu = zero_f; memory = zero_f; custom = zero_f }
  predict_over (x ∷ []) name factor = record { cpu = zero_f; memory = zero_f; custom = zero_f }
  predict_over (x ∷ y ∷ ys) name factor =
      let z = last_of y ys in
      let steps = of_int (pos (length (y ∷ ys))) in
      record {
        cpu = floor_f (extrapolate x.cpu_usage z.cpu_usage steps factor);
        memory = floor_f (extrapolate x.memory_usage z.memory_usage steps factor);
        custom = floor_f (
            if str_eq name ""
            then zero_f
            else extrapolate (custom_of name x) (custom_of name z) steps factor);
      }

  unfoldable pub predict_metrics : List (DeploymentMetricSample F) → String → ℤ → F → Load F
  unfolding predict_over
  predict_metrics samples name lookback factor =
      let ordered = slice_stable (λ a b. ltb a.timestamp b.timestamp) samples in
      let window = if leb_ℤ lookback (pos 1) then pos 2 else lookback in
      let step = if le factor zero_f then of_int (pos 1) else factor in
      predict_over (newest (pos_part window) ordered) name step

  abbrev pub larger : F → F → F
  larger a b = if lt a b then b else a

  -- The samples of the stabilization window, or all where there is none in it.
  unfoldable pub in_window :
      Time → ℤ → List (DeploymentMetricSample F) → List (DeploymentMetricSample F)
  in_window now width samples =
      let start = pos now +ℤ mul64 (sub64 (pos 0) width) (pos second) in
      let recent = keep (λ s. leb_ℤ start (pos s.timestamp)) samples in
      if is_nil recent then samples else recent

  unfoldable pub load_of : Time → AutoscalerPolicy F → List (DeploymentMetricSample F) → Load F
  unfolding in_window aggregate_metrics predict_metrics
  load_of now p samples =
      let window = in_window now p.stabilization_window_sec samples in
      let average = aggregate_metrics window p.custom_metric_name in
      if not p.predictive_scaling_enabled
      then average
      else (let ahead =
            predict_metrics window p.custom_metric_name p.predictive_lookback_samples
              p.predictive_scale_factor in
          record {
            cpu = larger average.cpu ahead.cpu;
            memory = larger average.memory ahead.memory;
            custom = larger average.custom ahead.custom;
          })
