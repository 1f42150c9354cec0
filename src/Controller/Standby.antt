-- ===== src/Controller/Standby.antt =====
-- What controllers do that do not lead.
use distributed_container_or.Base.{
  ◌≤◌, ◌≡◌, ◌≢◌, refl, ap, ◌∙◌, false, List, [], ◌∷◌, some, All, is_blank, ok,
}
use distributed_container_or.Model.Floats.{Float, Time}
use distributed_container_or.Model.Storage.{ControllerLease}
use distributed_container_or.Admission.{Admit}
use distributed_container_or.Store.State.{Orchestrator, and_then}
use distributed_container_or.Lease.{try_acquire_controller_leadership}
use distributed_container_or.Lease.Exclusion.{try_acquire_refused}
use distributed_container_or.Controller.{Manager, on_tick}

-- The managers are other than the leader's and have a name, and their ticks come before the lease
-- runs out.
abbrev pub Others : ControllerLease → List (Time × Manager) → Type 0
Others l ticks =
    All
      (λ (now, m).
        (now ≤ l.expires_at) × (l.leader_id ≢ m.controller_id) × (is_blank m.controller_id ≡ false))
      ticks

module _ {F : Type 0} ⦃fl : Float F⦄ (admit : Admit F) where
  unfoldable pub tick_all : List (Time × Manager) → Orchestrator F → Orchestrator F
  tick_all [] o = o
  tick_all ((now, m) ∷ ticks) o = tick_all ticks (on_tick now admit m o).1

  standby :
      (o : Orchestrator F) (l : ControllerLease) (now : Time) (m : Manager)
      → try_acquire_controller_leadership now m.controller_id m.lease o ≡ (ok (false, l), o)
      → on_tick now admit m o ≡ (ok tt, o)
  unfolding on_tick
  standby o l now m refused = rw (refused, and_then)

  -- However often other controllers tick, in any order, before the lease of a leader runs out, the
  -- whole state stands unchanged: none of them reconciles anything.
  pub tick_all-Others :
      (l : ControllerLease) (ticks : List (Time × Manager)) (o : Orchestrator F)
      → o.lease ≡ some l
      → is_blank l.leader_id ≡ false
      → Others l ticks
      → tick_all ticks o ≡ o
  unfolding tick_all
  tick_all-Others l [] o held named others = refl
  tick_all-Others l ((now, m) ∷ ticks) o held named ((early, other, known), rest) =
      let refused =
        try_acquire_refused o l now m.controller_id m.lease
          (record { held = held; named = named; current = early }) other known in
      ap (λ r. tick_all ticks r.1) (standby o l now m refused)
      ∙ tick_all-Others l ticks o held named rest
