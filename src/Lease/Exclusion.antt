-- ===== src/Lease/Exclusion.antt =====
-- While a lease stands, no other controller takes it.
use distributed_container_or.Base.{
  ◌+◌, ◌≤◌, ◌≡◌, ◌≢◌, refl, String, true, false, List, [], ◌∷◌, ℤ, some, arith, eq_iff, is_blank,
  ok, All, ap, ◌∙◌,
}
use distributed_container_or.Model.Floats.{Time}
use distributed_container_or.Model.Storage.{ControllerLease}
use distributed_container_or.Store.State.{Orchestrator}
use distributed_container_or.Lease.{no_lease, lease_or_default, try_acquire_controller_leadership}

-- The calls come from other controllers, and before the lease runs out.
abbrev pub Contenders : ControllerLease → List (Time × String × ℤ) → Type 0
Contenders l calls =
    All (λ (now, id, duration). (now ≤ l.expires_at) × (l.leader_id ≢ id) × (is_blank id ≡ false))
      calls

module _ {F : Type 0} where
  -- The lease is in force: it names a leader and has not run out.
  pub record InForce (o : Orchestrator F) (l : ControllerLease) (now : Time) : Type 0 where
    pub held : o.lease ≡ some l
    pub named : is_blank l.leader_id ≡ false
    pub current : now ≤ l.expires_at

  -- A controller that does not hold the lease in force is refused it, is told whose it is, and
  -- changes nothing.
  pub try_acquire_refused :
      (o : Orchestrator F) (l : ControllerLease) (now : Time) (id : String) (duration : ℤ)
      → InForce o l now
      → l.leader_id ≢ id
      → is_blank id ≡ false
      → try_acquire_controller_leadership now id duration o ≡ (ok (false, l), o)
  unfolding try_acquire_controller_leadership
  try_acquire_refused o l now id duration f other named =
      rw (named, f.held) (ground (arith, f.named, f.current, eq_iff l.leader_id id))

  -- Where a call returns that the caller leads, the lease that it returns stands in the store, names
  -- the caller, and runs for the duration asked for (ten seconds for none) from now.
  pub try_acquire_led :
      (o o' : Orchestrator F) (l : ControllerLease) (now : Time) (id : String) (duration : ℤ)
      → try_acquire_controller_leadership now id duration o ≡ (ok (true, l), o')
      → (o'.lease ≡ some l) × (l.leader_id ≡ id) × (l.expires_at ≡ now + lease_or_default duration)
  unfolding try_acquire_controller_leadership
  try_acquire_led o o' l now id duration e = ground (arith, eq_iff no_lease.leader_id id)

  -- Calls of several controllers in turn, each with its time, its controller and its duration.
  pub acquire_all : List (Time × String × ℤ) → Orchestrator F → Orchestrator F
  acquire_all [] o = o
  acquire_all ((now, id, duration) ∷ calls) o =
      acquire_all calls (try_acquire_controller_leadership now id duration o).1

  -- However many other controllers call before a lease runs out, the lease stands unchanged.
  pub acquire_all-Contenders :
      (l : ControllerLease) (calls : List (Time × String × ℤ)) (o : Orchestrator F)
      → o.lease ≡ some l
      → is_blank l.leader_id ≡ false
      → Contenders l calls
      → acquire_all calls o ≡ o
  unfolding acquire_all
  acquire_all-Contenders l [] o h n c = refl
  acquire_all-Contenders l ((now, id, duration) ∷ calls) o h n ((early, other, named), c) =
      let refused =
        try_acquire_refused o l now id duration (record { held = h; named = n; current = early })
          other named in
      ap (λ r. acquire_all calls r.1) refused ∙ acquire_all-Contenders l calls o h n c
