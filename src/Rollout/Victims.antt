-- ===== src/Rollout/Victims.antt =====
-- `pickScaleDownVictims`: how many workloads it picks, and which.
use distributed_container_or.Base.{
  ◌≡◌, ◌⊎◌, inl, inr, true, false, List, ℤ, pos, negsuc, min, arith, length, take, keep, Elem,
  slice_stable, IsWeakOrderOn, Ordered-slice_stable_on, Ordered-take-drop, All-keep, Elem-take-drop,
  Elem-take, Elem-slice_stable, slice_stable-Elem, Elem-keep, keep-Elem, length-take, length-keep,
  length-slice_stable, pos_part, take_all,
}
use distributed_container_or.Model.Cluster.{Workload}
use distributed_container_or.Rollout.{
  victim_first, is_active, pick_scale_down_victims, running_or_pending_count,
}

-- Among active workloads the test is a weak order.
victim_first-IsWeakOrderOn : IsWeakOrderOn victim_first (λ w. is_active w ≡ true)
victim_first-IsWeakOrderOn = record {
  asymm = λ x y px py e. ground arith;
  trans_not = λ x y z px py pz e f. ground arith;
}

abbrev sorted : List Workload → List Workload
sorted ws = slice_stable victim_first (keep is_active ws)

-- The picks are the front of the sorted active workloads.
pick-take :
    (ws : List Workload) (n : ℤ) → pick_scale_down_victims ws n ≡ take (pos_part n) (sorted ws)
unfolding pick_scale_down_victims
pick-take ws (negsuc n) = ground arith
pick-take ws (pos n) = ground (arith, take_all n (sorted ws))

module _ (ws : List Workload) (n : ℤ) where
  abbrev picks : List Workload
  picks = pick_scale_down_victims ws n

  Elem-picks : (w : Workload) → Elem w picks → Elem w ws × (is_active w ≡ true)
  Elem-picks w m = Elem-keep is_active w ws (
      Elem-slice_stable victim_first w (keep is_active ws)
        (Elem-take (pos_part n) w (sorted ws) (rw (pick-take ws n) at m)))

  picked_or_after :
      (v w : Workload)
      → Elem v picks
      → Elem w ws
      → is_active w ≡ true
      → Elem w picks ⊎ (victim_first w v ≡ false)
  picked_or_after v w mv mw active =
      let s =
        Ordered-slice_stable_on victim_first _ victim_first-IsWeakOrderOn (keep is_active ws)
          (All-keep is_active ws) in
      let placed = slice_stable-Elem victim_first w _ (keep-Elem is_active w ws mw active) in
      let front = rw (pick-take ws n) at mv in
      elim (Elem-take-drop (pos_part n) w (sorted ws) placed) [
        | inl early ↦ inl (rw (pick-take ws n) early)
        | inr late ↦ inr (Ordered-take-drop victim_first (pos_part n) v w (sorted ws) s front late)
      ]

  -- A scale-down by `n` picks as many workloads as it asks for, or all that are pending or running
  -- where there are fewer (none for n ≤ 0); each is a pending or running workload of those given;
  -- and a pending or running one that is not picked comes before none that is: pending ones come
  -- before running ones, and in each group the newer before the older.
  pub pick_scale_down_victims_lem :
      (length picks ≡ min (pos_part n) (running_or_pending_count ws))
      × ((w : Workload) → Elem w picks → Elem w ws × (is_active w ≡ true))
      × ((v w : Workload)
          → Elem v picks
          → Elem w ws
          → is_active w ≡ true
          → Elem w picks ⊎ (victim_first w v ≡ false))
  unfolding running_or_pending_count
  pick_scale_down_victims_lem = (
    rw (pick-take ws n) (
        omega (
          arith,
          length-take (pos_part n) (sorted ws),
          length-slice_stable victim_first (keep is_active ws),
          length-keep is_active ws,
        )),
    Elem-picks,
    picked_or_after,
  )
