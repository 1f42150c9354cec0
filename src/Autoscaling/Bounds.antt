-- ===== src/Autoscaling/Bounds.antt =====
-- What the autoscaler recommends.
use distributed_container_or.Base.{◌≡◌, ◌⊎◌, true, ℤ, pos, ◌≤ℤ◌, sub64, arith, String, is_blank}
use distributed_container_or.Model.Floats.{Float, Time}
use distributed_container_or.Model.Work.{AutoscalerPolicy}
use distributed_container_or.Rollout.{min_int, max_int}
use distributed_container_or.Autoscaling.Metrics.{Load, zero_f}
use distributed_container_or.Autoscaling.{
  candidate, for_resource, for_custom, recommend, configured,
}

clamp_bounds :
    (low high x : ℤ)
    → low ≤ℤ high
    → (low ≤ℤ max_int low (min_int high x)) × (max_int low (min_int high x) ≤ℤ high)
unfolding max_int min_int
clamp_bounds low high x h = ground arith

clamp-le :
    (low high x y : ℤ)
    → x ≤ℤ y
    → (max_int low (min_int high x) ≤ℤ low) ⊎ (max_int low (min_int high x) ≤ℤ y)
unfolding max_int min_int
clamp-le low high x y h = ground arith

min_int-le : (x y : ℤ) → min_int x y ≤ℤ y
unfolding min_int
min_int-le x y = ground arith

module _ {F : Type 0} ⦃fl : Float F⦄ where
  -- A policy that can be followed.
  pub record IsConfigured (p : AutoscalerPolicy F) : Type 0 where
    pub at_least_one : pos 1 ≤ℤ p.min_replicas
    pub ordered : p.min_replicas ≤ℤ p.max_replicas
    pub window : pos 1 ≤ℤ p.stabilization_window_sec
    pub up : pos 1 ≤ℤ p.scale_up_cooldown_sec
    pub down : pos 1 ≤ℤ p.scale_down_cooldown_sec

  -- What the load asks for, before the policy's limits.
  wanted : AutoscalerPolicy F → ℤ → Load F → ℤ
  wanted p current load = for_custom p current load.custom (
      for_resource current p.target_memory_utilization load.memory
        (for_resource current p.target_cpu_utilization load.cpu current))

  pub configured-IsConfigured :
      (now : Time) (id : String) (p : AutoscalerPolicy F) → IsConfigured (configured now id p)
  unfolding configured
  configured-IsConfigured now id p = ground arith

  -- Whatever the load, what is recommended under a policy as it is stored stays from its least to its
  -- most replicas, and so is at least one.
  pub recommend_bounds :
      (now : Time) (id : String) (given : AutoscalerPolicy F) (current : ℤ) (load : Load F)
      → (pos 1 ≤ℤ recommend (configured now id given) current load)
        × ((configured now id given).min_replicas
            ≤ℤ recommend (configured now id given) current load)
        × (recommend (configured now id given) current load
            ≤ℤ (configured now id given).max_replicas)
  unfolding recommend wanted
  recommend_bounds now id given current load =
      let c = configured-IsConfigured now id given in
      let p = configured now id given in
      let (low, high) =
        clamp_bounds p.min_replicas p.max_replicas (wanted p current load) c.ordered in
      (omega (arith, low, c.at_least_one), low, high)

  -- Where memory is used below 65 hundredths of its target and there is no custom metric, fewer
  -- replicas are recommended than there are, down to the least, however far the CPU is above its
  -- target.
  pub recommend_idle_memory :
      (p : AutoscalerPolicy F) (current : ℤ) (load : Load F)
      → is_blank p.custom_metric_name ≡ true
      → fl.lt zero_f p.target_memory_utilization ≡ true
      → fl.lt zero_f load.memory ≡ true
      → fl.lt load.memory (fl.mul p.target_memory_utilization (fl.hundredths 65)) ≡ true
      → (recommend p current load ≤ℤ p.min_replicas)
        ⊎ (recommend p current load ≤ℤ sub64 current (pos 1))
  unfolding recommend wanted
  recommend_idle_memory p current load blank target used idle =
      clamp-le p.min_replicas p.max_replicas (wanted p current load) (sub64 current (pos 1)) (
        rw (blank, target, used, idle)
          (min_int-le
            (max_int (for_resource current p.target_cpu_utilization load.cpu current)
              (candidate current p.target_memory_utilization load.memory))
            (sub64 current (pos 1))))
