-- ===== src/Autoscaling/Cooldown.antt =====
-- What one turn of the autoscaler changes.
use Prim.Native.String.{◌++◌ as append}
use distributed_container_or.Base.{
  ◌≡◌, ◌≢◌, refl, ◌⊎◌, inl, inr, true, false, List, ℤ, ◌≤ℤ◌, eqb_ℤ, pos, add64, arith, ok, some,
  String, Bool-cases, Option-cases,
}
use distributed_container_or.Model.Floats.{Float, Time, is_zero, sub_time}
use distributed_container_or.Model.Deploy.{Deployment, DeploymentStatus}
use distributed_container_or.Model.Work.{AutoscalerPolicy, DeploymentMetricSample}
use distributed_container_or.Store.Table.{lookup, lookup-insert_self, lookup-insert_ne, values}
use distributed_container_or.Store.{with_prefix}
use distributed_container_or.Store.Work.{newest}
use distributed_container_or.Store.State.{Orchestrator, and_then}
use distributed_container_or.Network.{is_nil}
use distributed_container_or.Autoscaling.{
  cooldown, is_cooling, rescaled, rescale, adjust, adjust_one, recommend,
}
use distributed_container_or.Autoscaling.Metrics.{load_of}

module _ {F : Type 0} ⦃fl : Float F⦄ (now : Time) (p : AutoscalerPolicy F) where
  -- The policy has not scaled before, or its cooldown for this direction has run out.
  abbrev pub MayScale : ℤ → ℤ → Type 0
  MayScale current recommended =
      (is_zero p.last_scale_at ≡ true)
      ⊎ (cooldown p current recommended ≤ℤ sub_time now p.last_scale_at)

  not_cooling :
      (current recommended : ℤ)
      → is_cooling now p current recommended ≡ false
      → MayScale current recommended
  unfolding is_cooling
  not_cooling current recommended e = ground (arith, e)

  -- The turn changes nothing; or it writes the deployment with as many replicas as are recommended,
  -- other than there were, and the policy with the time of it.
  pub data Turn (o : Orchestrator F) (o' : Orchestrator F) : Type 0 where
    still : o' ≡ o → Turn o o'
    scaled :
        (dep : Deployment F) (samples : List (DeploymentMetricSample F)) (recommended : ℤ)
        → lookup p.deployment_id o.deployments ≡ some dep
        → samples ≡ newest 200 (values (with_prefix (append dep.id ":") o.metrics))
        → recommended ≡ recommend p dep.spec.replicas (load_of now p samples)
        → recommended ≢ dep.spec.replicas
        → MayScale dep.spec.replicas recommended
        → ((d : Deployment F) × (lookup dep.id o'.deployments ≡ some d)
            × (d.spec ≡ record dep.spec { replicas = recommended })
            × (d.generation ≡ add64 dep.generation (pos 1))
            × (d.status ≡ DeploymentStatus.pending)
            × (d.current_revision ≡ dep.current_revision))
        → ((id : String) → dep.id ≢ id → lookup id o'.deployments ≡ lookup id o.deployments)
        → ((q : AutoscalerPolicy F) × (lookup p.id o'.autoscalers ≡ some q)
            × (q.last_scale_at ≡ now))
        → o'.workloads ≡ o.workloads
        → Turn o o'

  rescale-Turn :
      (o : Orchestrator F) (dep : Deployment F) (samples : List (DeploymentMetricSample F)) (r : ℤ)
      → lookup p.deployment_id o.deployments ≡ some dep
      → samples ≡ newest 200 (values (with_prefix (append dep.id ":") o.metrics))
      → r ≡ recommend p dep.spec.replicas (load_of now p samples)
      → r ≢ dep.spec.replicas
      → MayScale dep.spec.replicas r
      → Turn o (rescale now p r dep o).1
  unfolding rescale rescaled
  rescale-Turn o dep samples r found listed same moved may =
      let next = rescaled now r dep in
      let id_kept : next.id ≡ dep.id = refl in
      scaled dep samples r found listed same moved may
        (next, lookup-insert_self dep.id next o.deployments, refl, refl, refl, refl)
        (λ id h. lookup-insert_ne dep.id id next o.deployments h)
        (_, lookup-insert_self p.id _ o.autoscalers, refl) refl

  rescale-ok : (o : Orchestrator F) (dep : Deployment F) (r : ℤ) → (rescale now p r dep o).0 ≡ ok tt
  unfolding rescale
  rescale-ok o dep r = refl

  eqb_ℤ-ne : (a b : ℤ) → eqb_ℤ a b ≡ false → a ≢ b
  eqb_ℤ-ne a b e same = ground (arith, e, same)

  adjust-Turn :
      (o : Orchestrator F) (dep : Deployment F) (samples : List (DeploymentMetricSample F))
      → lookup p.deployment_id o.deployments ≡ some dep
      → samples ≡ newest 200 (values (with_prefix (append dep.id ":") o.metrics))
      → ((adjust now p samples dep o).0 ≡ ok tt) × Turn o (adjust now p samples dep o).1
  unfolding adjust
  adjust-Turn o dep samples found listed =
      let current = dep.spec.replicas in
      let r = recommend p current (load_of now p samples) in
      elim (Bool-cases (eqb_ℤ r current)) [
        | inl same ↦ rw same (refl, still refl)
        | inr moved ↦ elim (Bool-cases (is_cooling now p current r)) [
          | inl cooling ↦ rw (moved, cooling) (refl, still refl)
          | inr free ↦
              rw (moved, free)
                (
                  rescale-ok o dep r,
                  rescale-Turn o dep samples r found listed refl (eqb_ℤ-ne r current moved)
                      (not_cooling current r free),
                )
        ]
      ]

  -- One turn of the autoscaler under a policy does not fail. It changes the state in no way, or sets
  -- the replicas of the policy's deployment to what is recommended for its newest 200 samples, other than there
  -- were, with the next generation and as pending, and touches no other deployment and no workload; it does so only where the policy has not
  -- scaled before or its cooldown for that direction has run out, and stamps the policy with the time.
  pub adjust_one_lem :
      (o : Orchestrator F) → ((adjust_one now p o).0 ≡ ok tt) × Turn o (adjust_one now p o).1
  unfolding adjust_one
  adjust_one_lem o = elim (Option-cases (lookup p.deployment_id o.deployments)) [
    | inl gone ↦ rw (gone, and_then) (refl, still refl)
    | inr (dep, found) ↦
        let samples = newest 200 (values (with_prefix (append dep.id ":") o.metrics)) in
        elim (Bool-cases (is_nil samples)) [
          | inl bare ↦ rw (found, and_then, bare) (refl, still refl)
          | inr some_there ↦ rw (found, and_then, some_there) (adjust-Turn o dep samples found refl)
        ]
  ]
