-- ===== src/Admission.antt =====
-- internal/service/orchestrator.go: `CreateDeployment`.
pub mod Creation
use distributed_container_or.Base.{
  ℕ, String, Bool, true, false, not, List, [], ◌∷◌, ℤ, pos, leb_ℤ, eqb_ℤ, if◌then◌else◌, is_blank,
  Option, none, some, Result, ok, err, Error, message,
}
use distributed_container_or.Model.Floats.{Float, Time}
use distributed_container_or.Model.Cluster.{Resource}
use distributed_container_or.Model.Deploy.{
  Deployment, DeploymentSpec, DeploymentStatus, DeploymentConditionType, Message, text,
}
use distributed_container_or.Model.Storage.{EventLevel, PersistentVolumeClaim, is_bound}
use distributed_container_or.Store.State.{
  Orchestrator, M, ◌>>=◌, ◌>>◌, pure, fail, done, outcome, ignore, for_each,
}
use distributed_container_or.Store.{
  create_deployment, update_deployment, get_persistent_volume_claim, emit_event, fresh_id,
}
use distributed_container_or.Rollout.{normalize_rollout_spec, set_condition}
use distributed_container_or.Quota.{or_default, ensure_namespace_exists, enforce_namespace_quota}
use distributed_container_or.Reconcile.{condition}
use distributed_container_or.Status.{reconcile_deployment}
use distributed_container_or.Rebalance.{or_if_zero}

-- What the admission plugin answers is a parameter: an error where it denies.
abbrev pub Admit : Type 0 → Type 0
Admit F = DeploymentSpec F → Option Error

module _ {F : Type 0} where
  unfoldable pub with_defaults : DeploymentSpec F → DeploymentSpec F
  with_defaults spec = record spec {
    replicas = if leb_ℤ spec.replicas (pos 0) then pos 1 else spec.replicas;
    resources = record {
      milli_cpu = or_if_zero spec.resources.milli_cpu (pos 250);
      memory_mb = or_if_zero spec.resources.memory_mb (pos 256);
    };
    namespace = or_default spec.namespace;
  }

  -- The texts of the errors have the claim's name in place of their verb.
  unfoldable pub check_claim : String → String → M F Unit
  unfolding get_persistent_volume_claim
  check_claim namespace claim = do
    found ← outcome (get_persistent_volume_claim namespace claim)
    elim found [
      | err _ ↦ fail (message "volume claim %s lookup failed")
      | ok pvc ↦ if is_bound pvc.phase then done else fail (message "volume claim %s is not bound")
    ]

  abbrev pub admitted : Admit F → DeploymentSpec F → M F Unit
  admitted admit spec = elim (admit spec) [ none ↦ done | some e ↦ fail e ]

module _ {F : Type 0} ⦃fl : Float F⦄ where
  unfoldable pub new_deployment : Time → String → DeploymentSpec F → Deployment F
  new_deployment now id spec = record {
    id = id;
    spec = spec;
    generation = pos 1;
    observed_generation = pos 1;
    current_revision = pos 1;
    revision_history = record { revision = pos 1; spec = spec; created_at = now } ∷ [];
    rollout_status = record {
      phase = "Stable";
      updated_replicas = pos 0;
      ready_replicas = pos 0;
      unavailable_replicas = pos 0;
      message = text "";
      started_at = 0;
      last_updated_at = now;
    };
    owner = "orchestrator/controller-manager";
    finalizers = "workloads.cleanup" ∷ [];
    deletion_timestamp = none;
    status = DeploymentStatus.pending;
    conditions =
        condition DeploymentConditionType.progressing true "DeploymentAccepted"
          (text "Deployment accepted and awaiting reconciliation") now
        ∷ [];
    created_at = now;
    updated_at = now;
  }

  -- The deployment as it was made, not as the pass left it, with the status that is written last.
  unfoldable pub concluded : Time → Deployment F → Deployment F
  unfolding set_condition
  concluded now dep = record dep {
    status = DeploymentStatus.running;
    conditions =
        set_condition
          (set_condition dep.conditions (
            condition DeploymentConditionType.available true "ReplicasScheduled"
              (text "Deployment has scheduled replicas") now))
          (condition DeploymentConditionType.progressing false "ReconciliationComplete"
            (text "Initial reconciliation completed") now);
    updated_at = now;
  }

  unfoldable pub check_spec : Time → Admit F → DeploymentSpec F → M F Unit
  unfolding for_each check_claim
  check_spec now admit spec =
      admitted admit spec
      >> (ensure_namespace_exists now spec.namespace
          >> (for_each spec.volume_claims (check_claim spec.namespace)
              >> enforce_namespace_quota spec))

  unfoldable pub conclude : Time → Deployment F → M F (Deployment F)
  unfolding update_deployment emit_event concluded
  conclude now dep = do
    reconcile_deployment now dep.id
    ignore (
        emit_event now EventLevel.info "reconcile" "DeploymentCreated"
          (text "Deployment reconciled after creation") dep.id "" "")
    update_deployment (concluded now dep)
    pure (concluded now dep)

  unfoldable pub create_deployment_service : Time → Admit F → DeploymentSpec F → M F (Deployment F)
  unfolding with_defaults create_deployment new_deployment fresh_id
  create_deployment_service now admit given =
      if is_blank given.name
      then fail (message "name is required")
      else if is_blank given.image
      then fail (message "image is required")
      else (do
        let spec = with_defaults given
        check_spec now admit spec
        id ← fresh_id
        let dep =
            new_deployment now id (record spec { rollout = normalize_rollout_spec spec.rollout })
        create_deployment dep
        conclude now dep)
