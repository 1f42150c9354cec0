-- ===== src/Health/Classes.antt =====
-- How the age of a node's last heartbeat decides its status.
use distributed_container_or.Base.{ℕ, ◌-◌, ◌*◌, ◌/◌, ◌≤◌, ◌<◌, ◌^◌, ◌≡◌, ◌↔◌, pos, arith, div_ℤ}
use native.Mathlib.Nat.{le-div_iff_mul-le}
use distributed_container_or.Model.Floats.{Float, Time, sub_time}
use distributed_container_or.Model.Cluster.{Node, NodeStatus, NodeFailureClass}
use distributed_container_or.Health.{measured, judged}

sub_time_pos : (t u : ℕ) → u ≤ t → t - u < 2 ^ 63 → sub_time t u ≡ pos (t - u)
unfolding sub_time
sub_time_pos t u le h = ground arith

module _ {F : Type 0} ⦃fl : Float F⦄ where
  missed-measured :
      (now : Time) (ttl : ℕ) (n : Node F)
      → n.last_seen ≤ now
      → now - n.last_seen < 2 ^ 63
      → (measured now ttl n).health.consecutive_missed_ttl ≡ pos ((now - n.last_seen) / ttl)
  unfolding measured div_ℤ
  missed-measured now ttl n le h = ground (arith, sub_time_pos now n.last_seen le h)

  judged-cases :
      (n : Node F) (k : ℕ)
      → n.health.consecutive_missed_ttl ≡ pos k
      → ((judged n).status ≡ NodeStatus.down ↔ 2 ≤ k)
        × ((judged n).health.failure_class ≡ NodeFailureClass.critical ↔ 2 ≤ k)
        × ((judged n).status ≡ NodeStatus.ready ↔ k < 1)
  unfolding judged
  judged-cases n k e = (
    (λ d. ground arith, λ d. ground arith),
    (λ d. ground arith, λ d. ground arith),
    (λ d. ground arith, λ d. ground arith),
  )

  -- Where a node was last seen an age ago that is not negative and fits 64 bits, an evaluation under a
  -- positive TTL leaves it down and critical exactly where the age is two TTLs or more, and
  -- ready exactly where the age is below one TTL: also where it was being drained.
  pub judged_lem :
      (now : Time) (ttl : ℕ) (n : Node F)
      → 0 < ttl
      → n.last_seen ≤ now
      → now - n.last_seen < 2 ^ 63
      → ((judged (measured now ttl n)).status ≡ NodeStatus.down ↔ ttl * 2 ≤ now - n.last_seen)
        × ((judged (measured now ttl n)).health.failure_class ≡ NodeFailureClass.critical
            ↔ ttl * 2 ≤ now - n.last_seen)
        × ((judged (measured now ttl n)).status ≡ NodeStatus.ready ↔ now - n.last_seen < ttl)
  judged_lem now ttl n some_ttl le h =
      let k = (now - n.last_seen) / ttl in
      let two : (2 ≤ k) ↔ (2 * ttl ≤ now - n.last_seen) = le-div_iff_mul-le some_ttl in
      let one : (1 ≤ k) ↔ (1 * ttl ≤ now - n.last_seen) = le-div_iff_mul-le some_ttl in
      let c = judged-cases (measured now ttl n) k (missed-measured now ttl n le h) in
      (
        (λ d. omega (arith, two.0 (c.0.0 d)), λ d. c.0.1 (two.1 (omega arith))),
        (λ d. omega (arith, two.0 (c.1.0 d)), λ d. c.1.1 (two.1 (omega arith))),
        (λ d. ground (arith, one.1, c.2.0 d), λ d. c.2.1 (ground (arith, one.0))),
      )
