-- ===== src/Validation/Policies.antt =====
-- The autoscaler policies that pass the validation.
use distributed_container_or.Base.{◌≡◌, String, ℤ, pos, ◌≤ℤ◌, arith, subst, none}
use distributed_container_or.Model.Floats.{Float, Time}
use distributed_container_or.Model.Work.{AutoscalerPolicy}
use distributed_container_or.Autoscaling.Metrics.{Load}
use distributed_container_or.Autoscaling.{configured, recommend}
use distributed_container_or.Autoscaling.Bounds.{recommend_bounds}
use distributed_container_or.Validation.{policy_guards, validate_autoscaler_policy}
use distributed_container_or.Validation.Guards.{guards-none}

module _ {F : Type 0} ⦃fl : Float F⦄ (given : AutoscalerPolicy F) where
  validated_limits :
      validate_autoscaler_policy given ≡ none
      → (pos 1 ≤ℤ given.min_replicas) × (given.min_replicas ≤ℤ given.max_replicas)
  unfolding validate_autoscaler_policy
  validated_limits e =
      let (_, (low, (high, _))) = guards-none (policy_guards given) e in
      (ground (arith, low), ground (arith, high))

  configured-limits :
      (now : Time) (id : String)
      → (pos 1 ≤ℤ given.min_replicas) × (given.min_replicas ≤ℤ given.max_replicas)
      → ((configured now id given).min_replicas ≡ given.min_replicas)
        × ((configured now id given).max_replicas ≡ given.max_replicas)
  unfolding configured
  configured-limits now id (low, high) = (ground (arith, low), ground (arith, low, high))

  -- What is recommended under a policy that passed the validation and was then stored stays within the
  -- limits that the request gave, whatever the load: storing it moves neither of them.
  pub recommend_requested :
      validate_autoscaler_policy given ≡ none
      → (now : Time) (id : String) (current : ℤ) (load : Load F)
      → (given.min_replicas ≤ℤ recommend (configured now id given) current load)
        × (recommend (configured now id given) current load ≤ℤ given.max_replicas)
  recommend_requested passed now id current load =
      let (low, high) = configured-limits now id (validated_limits passed) in
      let bounds = recommend_bounds now id given current load in
      let r = recommend (configured now id given) current load in
      (subst (λ m. m ≤ℤ r) low bounds.1, subst (λ m. r ≤ℤ m) high bounds.2)
