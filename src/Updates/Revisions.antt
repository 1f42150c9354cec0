-- ===== src/Updates/Revisions.antt =====
-- An update keeps the history of revisions in order.
use distributed_container_or.Base.{
  ℕ, ◌+◌, ◌<◌, ◌^◌, ◌≡◌, ◌≢◌, ◌≤ℤ◌, ◌<ℤ◌, arith, sym, refl, subst, ap, ◌∙◌, ◌⊎◌, inl, inr, String,
  Bool, true, false, pos, add64, add64_pos, some, ok, Bool-cases,
}
use distributed_container_or.Model.Floats.{Float, Time}
use distributed_container_or.Model.Deploy.{Deployment, DeploymentSpec, DeploymentRevision}
use distributed_container_or.Store.Table.{lookup, insert, lookup-insert_self}
use distributed_container_or.Store.State.{Orchestrator, and_then}
use distributed_container_or.Rollout.{normalize_rollout_spec}
use distributed_container_or.Rollout.Spec.{IsNormal, normalize_rollout_spec-IsNormal}
use distributed_container_or.Rollback.Revisions.{IsRecorded, find-new, All-append}
use distributed_container_or.Updates.{
  NextSpec, merged, updated, progressing, recorded, update_deployment_service,
}

module _ {F : Type 0} ⦃fl : Float F⦄ (same : DeploymentSpec F → DeploymentSpec F → Bool)
    (now : Time) (given : NextSpec F) where
  merged-IsNormal :
      fl.lt (fl.of_int (pos 0)) (fl.of_int (pos 0)) ≡ false
      → (old : DeploymentSpec F) → IsNormal (merged old given).rollout
  unfolding merged
  merged-IsNormal zero old = normalize_rollout_spec-IsNormal zero (given.spec).rollout

  -- The spec asked for over the old one: its replicas where they are positive, each of its requests
  -- that is not 0, its labels and its tolerations where it has them, else the old ones; the rest is
  -- its own, the rollout normalised.
  pub record IsAsked (old next : DeploymentSpec F) : Type 0 where
    pub namespace : next.namespace ≡ given.spec.namespace
    pub name : next.name ≡ given.spec.name
    pub image : next.image ≡ given.spec.image
    pub image_pull_secret : next.image_pull_secret ≡ given.spec.image_pull_secret
    pub secret_mounts : next.secret_mounts ≡ given.spec.secret_mounts
    pub volume_claims : next.volume_claims ≡ given.spec.volume_claims
    pub priority : next.priority ≡ given.spec.priority
    pub liveness_probe : next.liveness_probe ≡ given.spec.liveness_probe
    pub readiness_probe : next.readiness_probe ≡ given.spec.readiness_probe
    pub replicas : pos 0 <ℤ given.spec.replicas → next.replicas ≡ given.spec.replicas
    pub old_replicas : given.spec.replicas ≤ℤ pos 0 → next.replicas ≡ old.replicas
    pub milli_cpu :
        given.spec.resources.milli_cpu ≢ pos 0
        → next.resources.milli_cpu ≡ given.spec.resources.milli_cpu
    pub old_milli_cpu :
        given.spec.resources.milli_cpu ≡ pos 0 → next.resources.milli_cpu ≡ old.resources.milli_cpu
    pub memory_mb :
        given.spec.resources.memory_mb ≢ pos 0
        → next.resources.memory_mb ≡ given.spec.resources.memory_mb
    pub old_memory_mb :
        given.spec.resources.memory_mb ≡ pos 0 → next.resources.memory_mb ≡ old.resources.memory_mb
    pub labels : given.has_labels ≡ true → next.labels ≡ given.spec.labels
    pub old_labels : given.has_labels ≡ false → next.labels ≡ old.labels
    pub tolerations : given.has_tolerations ≡ true → next.tolerations ≡ given.spec.tolerations
    pub old_tolerations : given.has_tolerations ≡ false → next.tolerations ≡ old.tolerations
    pub rollout : next.rollout ≡ normalize_rollout_spec given.spec.rollout

  merged-IsAsked : (old : DeploymentSpec F) → IsAsked old (merged old given)
  unfolding merged
  merged-IsAsked old = record {
    namespace = refl;
    name = refl;
    image = refl;
    image_pull_secret = refl;
    secret_mounts = refl;
    volume_claims = refl;
    priority = refl;
    liveness_probe = refl;
    readiness_probe = refl;
    replicas = λ h. ground (arith, h);
    old_replicas = λ h. ground (arith, h);
    milli_cpu = λ h. ground (arith, h);
    old_milli_cpu = λ h. ground (arith, h);
    memory_mb = λ h. ground (arith, h);
    old_memory_mb = λ h. ground (arith, h);
    labels = λ h. rw h refl;
    old_labels = λ h. rw h refl;
    tolerations = λ h. rw h refl;
    old_tolerations = λ h. rw h refl;
    rollout = refl;
  }

  abbrev pub next_entry : Deployment F → DeploymentSpec F → DeploymentRevision F
  next_entry dep spec = record {
    revision = add64 dep.current_revision (pos 1);
    spec = spec;
    created_at = now;
  }

  -- The update recorded the next revision, with the spec, or found the spec unchanged.
  abbrev pub Recorded : Deployment F → ℕ → DeploymentSpec F → Deployment F → Type 0
  Recorded dep n spec d =
      (IsRecorded d (n + 1) (next_entry dep spec) × (same dep.spec spec ≡ false))
      ⊎ ((d.current_revision ≡ dep.current_revision)
          × (d.revision_history ≡ dep.revision_history)
          × (same dep.spec spec ≡ true))

  updated-Recorded :
      fl.lt (fl.of_int (pos 0)) (fl.of_int (pos 0)) ≡ false
      → (dep : Deployment F) (n : ℕ) (e : DeploymentRevision F) → IsRecorded dep n e
      → n + 1 < 2 ^ 63
      → Recorded dep n (merged dep.spec given) (updated same now given dep)
  unfolding updated progressing recorded
  updated-Recorded zero dep n e r h = elim (Bool-cases (same dep.spec (merged dep.spec given))) [
    | inl unchanged ↦ inr (rw unchanged refl, rw unchanged refl, unchanged)
    | inr changed ↦
        let next : add64 dep.current_revision (pos 1) ≡ pos (n + 1) =
          ap (λ c. add64 c (pos 1)) r.current ∙ add64_pos n 1 h in
        inl (
          rw changed (record {
            current = next;
            found =
                find-new n (next_entry dep (merged dep.spec given)) dep.revision_history r.not_later
                  next;
            same = refl;
            normal = merged-IsNormal zero dep.spec;
            not_later =
                All-append n (next_entry dep (merged dep.spec given)) dep.revision_history
                  r.not_later next;
          }),
          changed,
        )
  ]

  updated-kept :
      (dep : Deployment F)
      → ((updated same now given dep).id ≡ dep.id)
        × ((updated same now given dep).spec ≡ merged dep.spec given)
  unfolding updated progressing recorded
  updated-kept dep = elim (Bool-cases (same dep.spec (merged dep.spec given))) [
    | inl unchanged ↦ rw unchanged (refl, refl)
    | inr changed ↦ rw changed (refl, refl)
  ]

  -- An update of a deployment that is stored does not fail, and stores under its identifier what it
  -- returns, with the spec asked for over the old one: its replicas where positive, each request that is
  -- not 0, its labels and tolerations where it has them, else the old ones; and all else of it, the
  -- rollout normalised. Where the comparison of the specs finds a change,
  -- the history has this spec under the next revision, which is current, and no later one; otherwise
  -- the history and the current revision stand. The history recorded the old spec before, zero is
  -- not less than itself, and the revision can be raised in 64 bits.
  pub update_deployment_lem :
      fl.lt (fl.of_int (pos 0)) (fl.of_int (pos 0)) ≡ false
      → (o : Orchestrator F) (id : String) (dep : Deployment F) (n : ℕ) (e : DeploymentRevision F)
      → lookup id o.deployments ≡ some dep
      → IsRecorded dep n e
      → n + 1 < 2 ^ 63
      → (d : Deployment F) × ((update_deployment_service same now id given o).0 ≡ ok d)
        × (lookup dep.id (update_deployment_service same now id given o).1.deployments ≡ some d)
        × IsAsked dep.spec d.spec
        × Recorded dep n d.spec d
  unfolding update_deployment_service
  update_deployment_lem zero o id dep n e stored r h =
      let d = updated same now given dep in
      let kept = updated-kept dep in
      (
        d,
        rw (stored, and_then) refl,
        rw (stored, and_then)
            (subst (λ k. lookup k (insert d.id d o.deployments) ≡ some d) kept.0
              (lookup-insert_self d.id d o.deployments)),
        subst (IsAsked dep.spec) (sym kept.1) (merged-IsAsked dep.spec),
        subst (λ spec. Recorded dep n spec d) (sym kept.1) (updated-Recorded zero dep n e r h),
      )
