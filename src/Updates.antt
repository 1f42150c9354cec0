-- ===== src/Updates.antt =====
-- internal/service/orchestrator.go: `UpdateDeployment`.
pub mod Revisions
use distributed_container_or.Base.{
  String, Bool, true, not, List, [], ◌∷◌, ◌++◌, ℤ, pos, add64, leb_ℤ, if◌then◌else◌,
}
use distributed_container_or.Model.Floats.{Float, Time}
use distributed_container_or.Model.Deploy.{
  Deployment, DeploymentSpec, DeploymentRevision, DeploymentStatus, DeploymentConditionType, text,
}
use distributed_container_or.Model.Storage.{EventLevel}
use distributed_container_or.Store.State.{Orchestrator, M, ◌>>=◌, ◌>>◌, pure, ignore}
use distributed_container_or.Store.{get_deployment, update_deployment, emit_event}
use distributed_container_or.Rollout.{normalize_rollout_spec, set_condition}
use distributed_container_or.Rebalance.{or_if_zero}
use distributed_container_or.Reconcile.{condition}

-- A spec that is asked for, and whether it has labels and tolerations: whether they are not nil.
pub record NextSpec (F : Type 0) : Type 0 where
  pub spec : DeploymentSpec F
  pub has_labels : Bool
  pub has_tolerations : Bool

module _ {F : Type 0} ⦃fl : Float F⦄ where
  unfoldable pub merged : DeploymentSpec F → NextSpec F → DeploymentSpec F
  unfolding normalize_rollout_spec
  merged old given =
      let next = given.spec in
      record next {
        rollout = normalize_rollout_spec next.rollout;
        replicas = if leb_ℤ next.replicas (pos 0) then old.replicas else next.replicas;
        resources = record {
          milli_cpu = or_if_zero next.resources.milli_cpu old.resources.milli_cpu;
          memory_mb = or_if_zero next.resources.memory_mb old.resources.memory_mb;
        };
        labels = if given.has_labels then next.labels else old.labels;
        tolerations = if given.has_tolerations then next.tolerations else old.tolerations;
      }

  unfoldable pub progressing : Time → DeploymentSpec F → Deployment F → Deployment F
  unfolding set_condition
  progressing now spec dep = record dep {
    spec = spec;
    generation = add64 dep.generation (pos 1);
    status = DeploymentStatus.pending;
    rollout_status = record dep.rollout_status {
      phase = "Progressing";
      message = text "Deployment spec updated";
      started_at = now;
      last_updated_at = now;
    };
    conditions = set_condition dep.conditions (
        condition DeploymentConditionType.progressing true "RolloutStarted"
          (text "Deployment rollout started") now);
    updated_at = now;
  }

  unfoldable pub recorded : Time → Deployment F → Deployment F
  recorded now dep =
      let revision = add64 dep.current_revision (pos 1) in
      record dep {
        current_revision = revision;
        revision_history =
            dep.revision_history
            ++ record { revision = revision; spec = dep.spec; created_at = now } ∷ [];
      }

  -- `same` is reflect.DeepEqual on the two specs.
  unfoldable pub updated :
      (DeploymentSpec F → DeploymentSpec F → Bool) → Time → NextSpec F → Deployment F → Deployment F
  unfolding merged progressing recorded
  updated same now given dep =
      let next = merged dep.spec given in
      let dep' = progressing now next dep in
      if not (same dep.spec next) then recorded now dep' else dep'

  unfoldable pub update_deployment_service :
      (DeploymentSpec F → DeploymentSpec F → Bool) → Time → String → NextSpec F → M F (Deployment F)
  unfolding get_deployment updated update_deployment emit_event
  update_deployment_service same now id given = do
    dep ← get_deployment id
    let next = updated same now given dep
    update_deployment next
    ignore (
        emit_event now EventLevel.info "rollout" "DeploymentUpdated"
          (text "Deployment spec updated for rollout") next.id "" "")
    pure next
