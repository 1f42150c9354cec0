-- ===== src/Lease/Terms.antt =====
-- The term of a lease: it grows when the leader changes, and starts anew after a release.
use distributed_container_or.Base.{
  ◌+◌, ◌<◌, ◌^◌, ◌≡◌, ◌≢◌, refl, String, true, [], ◌∷◌, ◌++◌, ℤ, pos, some, arith, eq_iff, is_blank,
  ok, ◌<ℤ◌, InInt64, ◌+ℤ◌, add64, add64-eq, pos_part, neg_part, wrap64,
}
use distributed_container_or.Model.Floats.{Time}
use distributed_container_or.Model.Storage.{ControllerLease, ControlPlaneTransition}
use distributed_container_or.Store.State.{Orchestrator}
use distributed_container_or.Store.{stamped}
use distributed_container_or.Lease.{
  no_lease, transition, try_acquire_controller_leadership, release_controller_leadership,
}

abbrev HasSpare : ℤ → Type 0
HasSpare c = (neg_part c ≡ 0) × (pos_part c + 1 < 2 ^ 63)

spare-InInt64 : (c : ℤ) → HasSpare c → InInt64 (c +ℤ pos 1)
unfolding ◌+ℤ◌
spare-InInt64 c h = ground arith

blank_empty : is_blank "" ≡ true
unfolding is_blank
blank_empty = refl

add64_zero_one : add64 (pos 0) (pos 1) ≡ pos 1
unfolding add64 wrap64 ◌+ℤ◌
add64_zero_one = refl

module _ {F : Type 0} where
  -- Where the store holds a lease whose term is not negative and can be raised in 64 bits, a call
  -- that makes the caller leader keeps the term if the caller led before, and raises it by one
  -- if it did not.
  pub try_acquire-term :
      (o o' : Orchestrator F) (old l : ControllerLease) (now : Time) (id : String) (duration : ℤ)
      → o.lease ≡ some old
      → HasSpare old.term
      → try_acquire_controller_leadership now id duration o ≡ (ok (true, l), o')
      → (old.leader_id ≡ id → l.term ≡ old.term) × (old.leader_id ≢ id → l.term ≡ old.term +ℤ pos 1)
  unfolding try_acquire_controller_leadership
  try_acquire-term o o' old l now id duration held spare e =
      ground
        (arith, eq_iff old.leader_id id, add64-eq old.term (pos 1), spare-InInt64 old.term spare)

  -- Recorded transitions say "LeaderAcquired" for a renewal too: whoever led before, a call that makes
  -- the caller leader under a positive term appends a transition with that action.
  pub try_acquire-action :
      (o o' : Orchestrator F) (l : ControllerLease) (now : Time) (id : String) (duration : ℤ)
      → try_acquire_controller_leadership now id duration o ≡ (ok (true, l), o')
      → pos 0 <ℤ l.term
      → (t : ControlPlaneTransition) × (o'.transitions ≡ o.transitions ++ t ∷ [])
        × (t.action ≡ "LeaderAcquired")
        × (t.term ≡ l.term)
  unfolding try_acquire_controller_leadership
  try_acquire-action o o' l now id duration e positive = (
    record (transition id l.term "LeaderAcquired" "controller leadership updated" now) {
      id = o.ids o.serial;
      created_at = stamped now now;
    },
    ground (arith, eq_iff id id, blank_empty),
    refl,
    refl,
  )

  -- A release lets the term start anew: whatever the term of the released lease, the controller that
  -- leads next has term 1.
  pub release-term :
      (o o' : Orchestrator F) (old l : ControllerLease) (now later : Time) (id next : String)
      (duration : ℤ)
      → o.lease ≡ some old
      → old.leader_id ≡ id
      → try_acquire_controller_leadership later next duration
          (release_controller_leadership now id o).1
        ≡ (ok (true, l), o')
      → l.term ≡ pos 1
  unfolding try_acquire_controller_leadership release_controller_leadership
  release-term o o' old l now later id next duration held owner e =
      ground (
        arith,
        eq_iff old.leader_id id,
        eq_iff no_lease.leader_id next,
        blank_empty,
        add64_zero_one,
      )
