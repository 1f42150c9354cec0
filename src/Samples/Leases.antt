-- ===== src/Samples/Leases.antt =====
-- The lease's theorems at concrete controllers.
use distributed_container_or.Base.{
  wrap64, add64, ◌≡◌, ◌≢◌, refl, String, true, false, ℤ, pos, ◌+ℤ◌, arith, ok, some, is_blank,
  eq_iff,
}
use distributed_container_or.Model.Storage.{ControllerLease}
use distributed_container_or.Store.State.{Orchestrator}
use distributed_container_or.Lease.{
  try_acquire_controller_leadership, release_controller_leadership,
}
use distributed_container_or.Lease.Exclusion.{InForce, try_acquire_refused}
use distributed_container_or.Samples.{empty}

abbrev c1 : String
c1 = "c1"

abbrev c2 : String
c2 = "c2"

abbrev lease : ControllerLease
lease = record { leader_id = c1; expires_at = 100; term = pos 3; updated_at = 1 }

abbrev held : Orchestrator ℤ
held = record empty { lease = some lease }

c1_named : is_blank c1 ≡ false
unfolding is_blank
c1_named = refl

c2_named : is_blank c2 ≡ false
unfolding is_blank
c2_named = refl

apart : c1 ≢ c2
apart e = cc ((eq_iff c1 c2).1 e)

lease-InForce : InForce held lease 50
lease-InForce = record { held = refl; named = c1_named; current = omega arith }

try_acquire_refused_example :
    try_acquire_controller_leadership 50 c2 (pos 10) held ≡ (ok (false, lease), held)
try_acquire_refused_example =
    try_acquire_refused held lease 50 c2 (pos 10) lease-InForce apart c2_named

abbrev after : String → Orchestrator ℤ
after id = (try_acquire_controller_leadership 200 id (pos 10) held).1

abbrev taken : String → ℤ → ControllerLease
taken id term = record { leader_id = id; expires_at = 210; term = term; updated_at = 200 }

takes :
    try_acquire_controller_leadership 200 c2 (pos 10) held ≡ (ok (true, taken c2 (pos 4)), after c2)
unfolding try_acquire_controller_leadership is_blank add64 wrap64 ◌+ℤ◌
takes = refl

renews :
    try_acquire_controller_leadership 200 c1 (pos 10) held ≡ (ok (true, taken c1 (pos 3)), after c1)
unfolding try_acquire_controller_leadership is_blank
renews = refl

abbrev released : Orchestrator ℤ
released = (release_controller_leadership 90 c1 held).1

abbrev after_release : Orchestrator ℤ
after_release = (try_acquire_controller_leadership 200 c2 (pos 10) released).1

takes_anew :
    try_acquire_controller_leadership 200 c2 (pos 10) released
    ≡ (ok (true, taken c2 (pos 1)), after_release)
unfolding try_acquire_controller_leadership release_controller_leadership is_blank add64 wrap64 ◌+ℤ◌
takes_anew = refl
