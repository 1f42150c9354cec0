-- ===== src/Lease.antt =====
-- internal/service/features.go: the lease by which one controller at a time leads.
pub mod Exclusion
pub mod Terms
use distributed_container_or.Base.{
  ℕ, ◌+◌, ◌*◌, String, Bool, true, false, not, ◌&&◌, ◌||◌, List, ℤ, pos, Option, none, some, add64,
  ltb_ℤ, leb_ℤ, pos_part, ltb, str_eq, if◌then◌else◌, is_blank, Result, ok, err, Error, not_found,
  no_schedulable_node, message,
}
use distributed_container_or.Model.Floats.{Time, second}
use distributed_container_or.Model.Storage.{ControllerLease, ControlPlaneTransition}
use distributed_container_or.Store.State.{
  Orchestrator, M, ◌>>=◌, ◌>>◌, pure, fail, modify, done, or_not_found, outcome, ignore,
}
use distributed_container_or.Store.{
  get_controller_lease, upsert_controller_lease, delete_controller_lease,
  append_control_plane_transition,
}

-- The zero value of a lease, which `GetControllerLease` returns beside its error.
abbrev pub no_lease : ControllerLease
no_lease = record { leader_id = ""; expires_at = 0; term = pos 0; updated_at = 0 }

abbrev pub transition : String → ℤ → String → String → Time → ControlPlaneTransition
transition node_id term action description now = record {
  id = "";
  node_id = node_id;
  term = term;
  action = action;
  description = description;
  created_at = now;
}

-- `if leaseDuration <= 0 { leaseDuration = 10 * time.Second }`.
abbrev pub lease_or_default : ℤ → ℕ
lease_or_default d = if leb_ℤ d (pos 0) then 10 * second else pos_part d

abbrev pub new_term : ControllerLease → String → ℤ
new_term lease id = if str_eq lease.leader_id id then lease.term else add64 lease.term (pos 1)

-- The test under which the lease is taken, `found` where the store had one.
unfoldable pub may_take : Time → Bool → ControllerLease → String → Bool
may_take now found lease id =
    not found || is_blank lease.leader_id || ltb lease.expires_at now || str_eq lease.leader_id id

module _ {F : Type 0} where
  unfoldable pub take_lease : Time → String → ℕ → ControllerLease → M F (Bool × ControllerLease)
  unfolding append_control_plane_transition upsert_controller_lease
  take_lease now id duration old = do
    let term = new_term old id
    let lease : ControllerLease = record {
      leader_id = id;
      expires_at = now + duration;
      term = term;
      updated_at = now;
    }
    upsert_controller_lease now lease
    let action : String =
        if ltb_ℤ (pos 0) term && str_eq lease.leader_id id
        then "LeaderAcquired"
        else "LeaderRenewed"
    ignore (
        append_control_plane_transition now
          (transition id term action "controller leadership updated" now))
    pure (true, lease)

  unfoldable pub try_acquire_controller_leadership :
      Time → String → ℤ → M F (Bool × ControllerLease)
  unfolding get_controller_lease take_lease may_take
  try_acquire_controller_leadership now id lease_duration =
      if is_blank id then fail (message "controller id is required") else (do
        let duration = lease_or_default lease_duration
        held ← outcome get_controller_lease
        elim held [
          | err not_found ↦ take_lease now id duration no_lease
          | err e ↦ fail e
          | ok lease ↦
              if may_take now true lease id
              then take_lease now id duration lease
              else pure (str_eq lease.leader_id id, lease)
        ])

  unfoldable pub release_controller_leadership : Time → String → M F Unit
  unfolding get_controller_lease delete_controller_lease append_control_plane_transition
  release_controller_leadership now id = do
    held ← outcome get_controller_lease
    elim held [
      | err not_found ↦ done
      | err e ↦ fail e
      | ok lease ↦
          if not (str_eq lease.leader_id id)
          then done
          else (delete_controller_lease
              >> append_control_plane_transition now
                  (transition id lease.term "LeaderReleased" "controller released lease" now))
    ]
