-- ===== src/Status/Settled.antt =====
-- The status that is computed for a deployment agrees with the counts it is computed from.
use distributed_container_or.Base.{
  ℕ, ◌+◌, ◌≤◌, ◌<◌, ◌^◌, ◌≡◌, ◌≢◌, refl, inl, inr, ◌↔◌, String, true, List, [], ◌∷◌, ℤ, pos,
  if◌then◌else◌, length, arith, Bool-cases, sub64_pos, sub64_neg,
}
use distributed_container_or.Model.Floats.{Time}
use distributed_container_or.Model.Cluster.{Workload}
use distributed_container_or.Model.Deploy.{Deployment, DeploymentStatus, DeploymentConditionType}
use distributed_container_or.Rollout.{active_for_revision, old_revision_workloads, running_count}
use distributed_container_or.Rollout.Conditions.{is_marked, is_marked-set_condition}
use distributed_container_or.Status.{
  Tally, tally, is_stable, is_available_now, settled, stable_status, unstable_status,
}

revisions_split :
    (ws : List Workload) (rev : ℤ)
    → length (active_for_revision ws rev) + length (old_revision_workloads ws rev) ≡ length ws
unfolding active_for_revision old_revision_workloads
revisions_split [] rev = refl
revisions_split (w ∷ ws) rev = ground (arith, revisions_split ws rev)

running-length : (ws : List Workload) → running_count ws ≤ length ws
unfolding running_count
running-length [] = omega arith
running-length (w ∷ ws) = ground (arith, running-length ws)

module _ {F : Type 0} (now : Time) (dep : Deployment F) where
  available-stable_status :
      is_marked DeploymentConditionType.available (stable_status now dep).conditions ≡ true
  unfolding stable_status
  available-stable_status = simp (is_marked-set_condition DeploymentConditionType.available)

  available-unstable_status :
      (phase : String) (u : Tally)
      → is_marked DeploymentConditionType.available (unstable_status now dep phase u).conditions
        ≡ is_available_now dep.spec.replicas u
  unfolding unstable_status
  available-unstable_status phase u = elim (Bool-cases (is_available_now dep.spec.replicas u)) [
    | inl e ↦ simp (e, is_marked-set_condition DeploymentConditionType.available)
    | inr e ↦ simp (e, is_marked-set_condition DeploymentConditionType.available)
  ]

  status-stable_status : (stable_status now dep).status ≡ DeploymentStatus.running
  unfolding stable_status
  status-stable_status = refl

  status-unstable_status :
      (phase : String) (u : Tally)
      → (unstable_status now dep phase u).status ≡ (
          if is_available_now dep.spec.replicas u
          then DeploymentStatus.running
          else DeploymentStatus.pending)
  unfolding unstable_status
  status-unstable_status phase u = ground arith

  generation-stable_status : (stable_status now dep).generation ≡ dep.generation
  unfolding stable_status
  generation-stable_status = refl

  generation-unstable_status :
      (phase : String) (u : Tally) → (unstable_status now dep phase u).generation ≡ dep.generation
  unfolding unstable_status
  generation-unstable_status phase u = ground arith

  available-settled :
      (phase : String) (u : Tally)
      → (is_marked DeploymentConditionType.available (settled now dep phase u).conditions ≡ true)
        ↔ ((settled now dep phase u).status ≡ DeploymentStatus.running)
  unfolding settled
  available-settled phase u = ground (
    arith,
    available-stable_status,
    available-unstable_status phase u,
    status-stable_status,
    status-unstable_status phase u,
  )

module _ (r : ℕ) (rev : ℤ) (active : List Workload) where
  -- All replicas run, and no older workload is active.
  abbrev pub IsComplete : Type 0
  IsComplete = (length (old_revision_workloads active rev) ≡ 0) × (r ≤ running_count active)

  abbrev pub after : {F : Type 0} → Time → Deployment F → String → Deployment F
  after now dep phase = settled now dep phase (tally (pos r) rev active)

  complete-running :
      {F : Type 0} (now : Time) (dep : Deployment F) (phase : String)
      → r < 2 ^ 63
      → dep.spec.replicas ≡ pos r
      → IsComplete
      → (after now dep phase).status ≡ DeploymentStatus.running
  unfolding settled is_stable stable_status unstable_status is_available_now tally
  complete-running now dep phase hr e c = ground (arith, sub64_pos r (running_count active) hr)

  running-complete :
      {F : Type 0} (now : Time) (dep : Deployment F) (phase : String)
      → r < 2 ^ 63
      → length active < 2 ^ 63
      → dep.spec.replicas ≡ pos r
      → (after now dep phase).status ≡ DeploymentStatus.running
      → IsComplete
  unfolding settled is_stable stable_status unstable_status is_available_now tally
  running-complete now dep phase hr ha e c = ground (
    arith,
    sub64_neg r (running_count active),
    running-length active,
    sub64_pos r (running_count active) hr,
  )

  -- The status that is computed: running exactly where no active workload is of another revision
  -- and at least the replicas run, pending otherwise; "Available" is true exactly where it is
  -- running; and the generation is observed.
  pub settled_lem :
      {F : Type 0} (now : Time) (dep : Deployment F) (phase : String)
      → r < 2 ^ 63
      → length active < 2 ^ 63
      → dep.spec.replicas ≡ pos r
      → ((after now dep phase).status ≡ DeploymentStatus.running ↔ IsComplete)
        × ((after now dep phase).status ≢ DeploymentStatus.running
            → (after now dep phase).status ≡ DeploymentStatus.pending)
        × ((is_marked DeploymentConditionType.available (after now dep phase).conditions ≡ true)
            ↔ ((after now dep phase).status ≡ DeploymentStatus.running))
        × ((after now dep phase).observed_generation ≡ dep.generation)
  unfolding settled
  settled_lem now dep phase hr ha e = (
    (running-complete now dep phase hr ha e, complete-running now dep phase hr e),
    ground (
      arith,
      status-stable_status now dep,
      status-unstable_status now dep phase (tally (pos r) rev active),
    ),
    available-settled now dep phase (tally (pos r) rev active),
    ground (
      arith,
      generation-stable_status now dep,
      generation-unstable_status now dep phase (tally (pos r) rev active),
    ),
  )
