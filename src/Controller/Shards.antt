-- ===== src/Controller/Shards.antt =====
-- How the deployments are shared among the controllers.
use distributed_container_or.Base.{
  ℕ, ◌%◌, ◌^◌, ◌<◌, ◌≡◌, String, true, ℤ, pos, ◌≤ℤ◌, ◌<ℤ◌, eqb_ℤ, leb_ℤ, ltb_ℤ, pos_part,
  if◌then◌else◌, eq_of_parts, arith,
}
use distributed_container_or.Controller.{belongs_to_shard, hash_of, new_manager}

rem-lt : (a b : ℕ) → 0 < b → a % b < b
rem-lt a b h = grind arith

residue_unique :
    (h n : ℕ)
    → 0 < n
    → (h % n < n)
      × (eqb_ℤ (pos (h % n)) (pos (h % n)) ≡ true)
      × ((j : ℤ) → eqb_ℤ (pos (h % n)) j ≡ true → j ≡ pos (h % n))
residue_unique h n p =
    (rem-lt h n p, ground arith, λ j e. eq_of_parts j (pos (h % n)) (ground (arith, e)))

-- A manager's shard is one of its shards, whatever numbers it is made from.
pub new_manager_bounds :
    (id : String) (index total lease : ℤ)
    → (pos 0 ≤ℤ (new_manager id index total lease).shard_index)
      × ((new_manager id index total lease).shard_index
          <ℤ (new_manager id index total lease).shard_total)
      × (pos 1 ≤ℤ (new_manager id index total lease).lease)
unfolding new_manager
new_manager_bounds id index total lease =
    let n = if leb_ℤ total (pos 0) then pos 1 else total in
    let i = if ltb_ℤ index (pos 0) then pos 0 else index in
    ground (arith, rem-lt (pos_part i) (pos_part n))

-- Among as many shards as fit 32 bits, a deployment belongs to exactly one.
pub shard_unique :
    (id : String) (n : ℕ)
    → 1 < n
    → n < 2 ^ 32
    → (i : ℕ) × (i < n)
      × (belongs_to_shard id (pos i) (pos n) ≡ true)
      × ((j : ℤ) → belongs_to_shard id j (pos n) ≡ true → j ≡ pos i)
unfolding belongs_to_shard
shard_unique id n some_of few =
    let whole : n % 2 ^ 32 ≡ n = omega arith in
    let (below, same, only) = residue_unique (hash_of id) n (omega arith) in
    (hash_of id % n, below, rw whole same, λ j e. only j (rw whole at e))
