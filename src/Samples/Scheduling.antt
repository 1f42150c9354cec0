-- ===== src/Samples/Scheduling.antt =====
-- The scheduler's theorems at concrete nodes.
use distributed_container_or.Base.{
  add64, ◌*ℤ◌, div_ℤ, ◌+ℤ◌, codes_eq, trim_space, to_lower, has_prefix_fold, wrap64, sub64,
  slice_stable, equal_fold, is_blank, ◌≡◌, refl, true, false, List, [], ◌∷◌, ℤ, Elem, arith, ok,
  ltb_ℤ, IsWeakOrder, ◌-ℤ◌,
}
use distributed_container_or.Model.Cluster.{Node}
use distributed_container_or.Scheduler.{
  new_planner, tolerates_node_taints, schedulable, score_node, select_node,
}
use distributed_container_or.Scheduler.Fit.{IsInRange}
use distributed_container_or.Scheduler.Choice.{select_node-ok}
use distributed_container_or.Samples.{hundredths_float, size, node, gpu, gpu_toleration, empty}

abbrev half_full : Node ℤ
half_full = node "n1" [] (size 2_000 4_096)

half_full-IsInRange : IsInRange half_full
unfolding ◌-ℤ◌
half_full-IsInRange = record { cpu = ground arith; mem = ground arith }

tainted-tolerated :
    tolerates_node_taints (node "n2" (gpu ∷ []) (size 0 0)) (gpu_toleration ∷ []) ≡ true
unfolding tolerates_node_taints is_blank equal_fold
tainted-tolerated = refl

abbrev nodes : List (Node ℤ)
nodes = half_full ∷ node "n3" [] (size 0 0) ∷ node "n2" (gpu ∷ []) (size 0 0) ∷ []

pub ltb_ℤ-IsWeakOrder : IsWeakOrder ltb_ℤ
ltb_ℤ-IsWeakOrder = record { asymm = λ x y e. ground arith; trans_not = λ x y z e f. ground arith }

chosen : select_node empty.scheduler nodes (size 1_000 512) [] [] ≡ ok (node "n3" [] (size 0 0))
unfolding select_node slice_stable schedulable sub64 wrap64 ◌-ℤ◌ score_node new_planner
    has_prefix_fold to_lower trim_space codes_eq ◌+ℤ◌ div_ℤ ◌*ℤ◌ add64
chosen = refl

select_node-ok_example :
    Elem (node "n3" [] (size 0 0)) nodes
    × (schedulable (size 1_000 512) [] [] (node "n3" [] (size 0 0)) ≡ true)
    × ((m : Node ℤ)
        → Elem m nodes
        → schedulable (size 1_000 512) [] [] m ≡ true
        → ltb_ℤ
            (score_node empty.scheduler m (size 1_000 512))
            (score_node empty.scheduler (node "n3" [] (size 0 0)) (size 1_000 512))
          ≡ false)
select_node-ok_example =
    select_node-ok empty.scheduler (size 1_000 512) [] [] ltb_ℤ-IsWeakOrder nodes chosen
