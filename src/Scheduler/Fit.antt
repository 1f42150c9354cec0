-- ===== src/Scheduler/Fit.antt =====
-- What the scheduler's filters mean: room on the node, and tolerated taints.
use distributed_container_or.Base.{
  ◌≡◌, ◌↔◌, ◌⊎◌, true, false, List, Elem, ◌+ℤ◌, ◌-ℤ◌, ◌≤ℤ◌, InInt64, arith, eq_iff, is_blank,
  equal_fold, trim_space, sub64_parts, +ℤ_parts, all-Elem, any-Elem, any,
}
use distributed_container_or.Model.Cluster.{Resource, Taint, Toleration, Node}
use distributed_container_or.Scheduler.{fits, tolerates, tolerates_node_taints}

module _ {F : Type 0} where
  -- What is left on the node is representable.
  pub record IsInRange (n : Node F) : Type 0 where
    pub cpu : InInt64 (n.allocatable.milli_cpu -ℤ n.used.milli_cpu)
    pub mem : InInt64 (n.allocatable.memory_mb -ℤ n.used.memory_mb)

  pub record HasRoom (n : Node F) (req : Resource) : Type 0 where
    pub cpu : n.used.milli_cpu +ℤ req.milli_cpu ≤ℤ n.allocatable.milli_cpu
    pub mem : n.used.memory_mb +ℤ req.memory_mb ≤ℤ n.allocatable.memory_mb

  -- Where what is left on a node is representable, `fits` holds exactly when the request together
  -- with what is used does not exceed what is allocatable, in CPU and in memory.
  pub fits_iff : (n : Node F) (req : Resource) → IsInRange n → (fits n req ≡ true) ↔ HasRoom n req
  unfolding fits
  fits_iff n req r =
      let cpu = sub64_parts n.allocatable.milli_cpu n.used.milli_cpu r.cpu in
      let mem = sub64_parts n.allocatable.memory_mb n.used.memory_mb r.mem in
      let cpu_sum = +ℤ_parts n.used.milli_cpu req.milli_cpu in
      let mem_sum = +ℤ_parts n.used.memory_mb req.memory_mb in
      (λ e. record { cpu = ground arith; mem = ground arith }, λ h. ground (arith, h.cpu, h.mem))

-- The toleration covers the taint.
pub record Covers (tol : Toleration) (taint : Taint) : Type 0 where
  pub key : tol.key ≡ taint.key
  pub named : is_blank tol.key ≡ false
  pub effect : (is_blank tol.effect ≡ true) ⊎ (tol.effect ≡ taint.effect)
  pub value :
      (equal_fold (trim_space tol.operator) "exists" ≡ true)
      ⊎ (is_blank tol.value ≡ true)
      ⊎ (tol.value ≡ taint.value)

tolerates-Covers :
    (taint : Taint) (tol : Toleration) → tolerates taint tol ≡ true → Covers tol taint
unfolding tolerates
tolerates-Covers taint tol e =
    let key = eq_iff tol.key taint.key in
    let effect = eq_iff tol.effect taint.effect in
    let value = eq_iff tol.value taint.value in
    record { key = ground arith; named = ground arith; effect = ground arith; value = ground arith }

module _ {F : Type 0} where
  -- A node whose taints are tolerated has, for each taint, a toleration among those given with the same
  -- key, not blank, with no effect or the same one, and with the operator Exists, no value or the same
  -- value.
  pub tolerates_node_taints-Covers :
      (n : Node F) (tolerations : List Toleration) (taint : Taint)
      → tolerates_node_taints n tolerations ≡ true
      → Elem taint n.taints
      → (tol : Toleration) × Elem tol tolerations × Covers tol taint
  unfolding tolerates_node_taints
  tolerates_node_taints-Covers n tolerations taint e m =
      let found =
        any-Elem (tolerates taint) tolerations
          (all-Elem (λ t. any (tolerates t) tolerations) taint n.taints e m) in
      (found.0, found.1, tolerates-Covers taint found.0 found.2)
