-- ===== src/Replicas/Bounds.antt =====
-- How many workloads a pass may create, and how far below the replicas it may go.
use distributed_container_or.Base.{
  ℕ, ◌+◌, ◌-◌, ◌*◌, ◌/◌, ◌≤◌, ◌<◌, ◌^◌, ◌≡◌, inl, inr, not, ◌&&◌, pos, Bool-cases, min, max, arith,
  add64, sub64, div_ℤ, ltb_ℤ, leb_ℤ, if◌then◌else◌, add64_pos, mul64_pos, sub64_pos, sub64_neg,
}
use native.Mathlib.Nat.{mul-le-mul_left}
use distributed_container_or.Model.Deploy.{DeploymentSpec}
use distributed_container_or.Rollout.{is_canary, floor_zero, min_int}
use distributed_container_or.Replicas.{canary_target, aim, plan}

-- `floor_zero` of a difference of two counts is their difference as natural numbers.
pub floor_zero-sub64 :
    (m n : ℕ) → m < 2 ^ 63 → n < 2 ^ 63 → floor_zero (sub64 (pos m) (pos n)) ≡ pos (m - n)
floor_zero-sub64 m n hm hn = ground (arith, sub64_pos m n hm, sub64_neg m n hn)

-- A normalized spec whose counts, sums and products stay in 64 bits.
pub record IsInRange {F : Type 0} (spec : DeploymentSpec F) (r s u p : ℕ) : Type 0 where
  pub replicas : spec.replicas ≡ pos r
  pub surge : spec.rollout.rolling_update.max_surge ≡ pos s
  pub unavailable : spec.rollout.rolling_update.max_unavailable ≡ pos u
  pub percentage : spec.rollout.canary.percentage ≡ pos p
  pub at_most : p ≤ 100
  pub replicas_bound : r * 100 < 2 ^ 63
  pub surge_bound : r + s < 2 ^ 63
  pub unavailable_bound : u < 2 ^ 63

module _ {F : Type 0} (spec : DeploymentSpec F) (r s u p : ℕ) (fit : IsInRange spec r s u p) where
  -- Under a normalized spec whose counts stay in 64 bits, a canary is the percentage of the replicas,
  -- rounded down, but one workload at least, and no more than the replicas.
  pub canary_target-cases : canary_target spec ≡ pos (min r (max 1 ((r * p) / 100)))
  unfolding canary_target div_ℤ
  canary_target-cases = ground (
    arith,
    fit.replicas,
    fit.percentage,
    mul64_pos r p (omega (arith, mul-le-mul_left r fit.at_most, fit.replicas_bound)),
  )

  -- A pass aims at the replicas, or at the canaries while old workloads are active.
  pub aim-le : (old running : ℕ) → (t : ℕ) × ((aim spec old running).0 ≡ pos t) × (t ≤ r)
  unfolding aim
  aim-le old running =
      elim (Bool-cases (
        is_canary spec.rollout.strategy
        && spec.rollout.canary.enabled
        && ltb_ℤ (pos 0) (pos old)
        && not (leb_ℤ (canary_target spec) (pos running)))) [
          | inl staged ↦
              (min r (max 1 ((r * p) / 100)), ground (arith, canary_target-cases), omega arith)
          | inr full ↦ (r, ground (arith, fit.replicas), omega arith)
        ]

  max_total-cases :
      (if ltb_ℤ (add64 spec.replicas spec.rollout.rolling_update.max_surge) spec.replicas
        then spec.replicas
        else add64 spec.replicas spec.rollout.rolling_update.max_surge)
      ≡ pos (r + s)
  max_total-cases = ground (arith, fit.replicas, fit.surge, add64_pos r s fit.surge_bound)

  pub min_available-plan :
      (total new running : ℕ) → (plan spec total new running).min_available ≡ pos (r - u)
  unfolding plan
  min_available-plan total new running = ground (
    arith,
    fit.replicas,
    fit.unavailable,
    fit.surge_bound,
    fit.unavailable_bound,
    floor_zero-sub64 r u,
  )

  pub to_create-plan :
      (total new running t : ℕ)
      → total < 2 ^ 63
      → new ≤ total
      → (aim spec (total - new) running).0 ≡ pos t
      → t ≤ r
      → (plan spec total new running).to_create ≡ pos (min (t - new) ((r + s) - total))
  unfolding plan min_int
  to_create-plan total new running t bound le e small = ground (
    arith,
    max_total-cases,
    floor_zero-sub64 t new,
    floor_zero-sub64 (r + s) total,
    fit.surge_bound,
  )

  -- Under a normalized spec whose counts stay in 64 bits, a pass creates no more workloads than brings
  -- the active ones to the replicas with the surge, and the current revision's to the replicas; the
  -- count is not negative; and deletions are to leave the replicas less the unavailable ones.
  pub plan_lem :
      (total new running : ℕ)
      → total < 2 ^ 63
      → new ≤ total
      → (n : ℕ) × ((plan spec total new running).to_create ≡ pos n)
        × (total + n ≤ max total (r + s))
        × (new + n ≤ max new r)
        × ((plan spec total new running).min_available ≡ pos (r - u))
  plan_lem total new running bound le =
      let (t, e, small) = aim-le (total - new) running in
      (
        min (t - new) ((r + s) - total),
        to_create-plan total new running t bound le e small,
        omega arith,
        omega arith,
        min_available-plan total new running,
      )
