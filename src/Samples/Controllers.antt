-- ===== src/Samples/Controllers.antt =====
-- The theorems on controllers at concrete ones.
use distributed_container_or.Store.Table.{values}
use distributed_container_or.Base.{
  map, ◌++◌, ℕ, ◌<◌, ◌≡◌, ◌≢◌, refl, true, false, is_blank, eq_iff, [], ◌∷◌, ℤ, pos, arith, some,
  none, ok,
}
use distributed_container_or.Model.Storage.{ControllerLease}
use distributed_container_or.Store.State.{Orchestrator}
use distributed_container_or.Controller.{reconcile_one, Manager, belongs_to_shard, reconcile_all}
use distributed_container_or.Controller.Shards.{shard_unique}
use distributed_container_or.Controller.Standby.{tick_all, tick_all-Others}
use distributed_container_or.Controller.Steps.{AllTried}
use distributed_container_or.Controller.Pass.{later_steps, reconcile_all_lem}
use distributed_container_or.Samples.{hundredths_float, empty}

shard_unique_example :
    (i : ℕ) × (i < 3)
    × (belongs_to_shard "dep-1" (pos i) (pos 3) ≡ true)
    × ((j : ℤ) → belongs_to_shard "dep-1" j (pos 3) ≡ true → j ≡ pos i)
shard_unique_example = shard_unique "dep-1" 3 (omega arith) (omega arith)

abbrev lease : ControllerLease
lease = record { leader_id = "c1"; expires_at = 90; term = pos 1; updated_at = 1 }

abbrev led : Orchestrator ℤ
led = record empty { lease = some lease }

abbrev other : Manager
other = record { controller_id = "c2"; shard_index = pos 1; shard_total = pos 2; lease = pos 10 }

leader_named : is_blank lease.leader_id ≡ false
unfolding is_blank
leader_named = refl

other_named : is_blank other.controller_id ≡ false
unfolding is_blank
other_named = refl

apart : lease.leader_id ≢ other.controller_id
apart e = cc ((eq_iff lease.leader_id other.controller_id).1 e)

tick_all-Others_example : tick_all (λ _. none) ((20, other) ∷ (90, other) ∷ []) led ≡ led
tick_all-Others_example =
    tick_all-Others (λ _. none) lease ((20, other) ∷ (90, other) ∷ []) led refl leader_named
      ((omega arith, apart, other_named), ((omega arith, apart, other_named), tt))

reconcile_all_lem_example :
    (o' : Orchestrator ℤ) × (reconcile_all 9 (λ _. none) led ≡ (ok tt, o'))
    × AllTried (map (reconcile_one 9) (values led.deployments) ++ later_steps 9 (λ _. none)) led o'
reconcile_all_lem_example = reconcile_all_lem 9 (λ _. none) led
