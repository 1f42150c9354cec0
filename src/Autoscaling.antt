-- ===== src/Autoscaling.antt =====
-- internal/service/orchestrator.go: autoscaler policies, the metrics of deployments, and the pass that
-- adjusts replicas.
pub mod Metrics
pub mod Bounds
pub mod Cooldown
use distributed_container_or.Base.{
  ℕ, suc, ◌+◌, String, Bool, true, false, not, ◌&&◌, ◌||◌, List, [], ◌∷◌, ◌++◌, ℤ, pos, ◌+ℤ◌, add64,
  sub64, mul64, ltb_ℤ, leb_ℤ, eqb_ℤ, ltb, leb, str_eq, if◌then◌else◌, keep, length, drop,
  slice_stable, is_blank, Option, none, some, Result, ok, err, Error, message, pos_part,
}
use distributed_container_or.Model.Floats.{Float, Time, is_zero, second, sub_time}
use distributed_container_or.Model.Deploy.{
  Deployment, DeploymentStatus, DeploymentConditionType, text, format,
}
use distributed_container_or.Model.Storage.{EventLevel}
use distributed_container_or.Model.Work.{DeploymentMetricSample, AutoscalerPolicy}
use distributed_container_or.Store.State.{
  Orchestrator, M, ◌>>=◌, ◌>>◌, pure, fail, done, outcome, ignore, for_each,
}
use distributed_container_or.Store.{
  stamped, get_deployment, update_deployment, emit_event, fresh_id,
}
use distributed_container_or.Store.Work.{
  newest, upsert_autoscaler_policy, list_autoscaler_policies, delete_autoscaler_policy,
  append_deployment_metric, list_deployment_metrics,
}
use distributed_container_or.Network.{is_nil}
use distributed_container_or.Services.Collecting.{seconds}
use distributed_container_or.Rollout.{min_int, max_int, set_condition}
use distributed_container_or.Reconcile.{condition}
use distributed_container_or.Autoscaling.Metrics.{Load, zero_f, load_of}

-- `if x <= 0 { x = d }`.
abbrev pub or_positive : ℤ → ℤ → ℤ
or_positive x d = if leb_ℤ x (pos 0) then d else x

abbrev pub goes_up : ℤ → ℤ → Bool
goes_up current recommended = ltb_ℤ current recommended

abbrev pub direction : ℤ → ℤ → String
direction current recommended = if goes_up current recommended then "up" else "down"

module _ {F : Type 0} ⦃fl : Float F⦄ where
  open fl use {of_int, hundredths, add, sub, mul, div, lt, le, ceil}

  abbrev pub candidate : ℤ → F → F → ℤ
  candidate current target average = ceil (mul (of_int current) (div average target))

  -- The two blocks for CPU and for memory.
  unfoldable pub for_resource : ℤ → F → F → ℤ → ℤ
  unfolding max_int min_int
  for_resource current target average recommended =
      if lt zero_f target && lt zero_f average
      then (let raised = max_int recommended (candidate current target average) in
          if lt average (mul target (hundredths 65))
          then min_int raised (sub64 current (pos 1))
          else raised)
      else recommended

  unfoldable pub for_custom : AutoscalerPolicy F → ℤ → F → ℤ → ℤ
  unfolding max_int
  for_custom p current average recommended =
      if not (is_blank p.custom_metric_name)
        && lt zero_f p.target_custom_metric_value
        && lt zero_f average
      then max_int recommended (candidate current p.target_custom_metric_value average)
      else recommended

  unfoldable pub recommend : AutoscalerPolicy F → ℤ → Load F → ℤ
  unfolding for_resource for_custom max_int min_int
  recommend p current load =
      let after_cpu = for_resource current p.target_cpu_utilization load.cpu current in
      let after_memory = for_resource current p.target_memory_utilization load.memory after_cpu in
      let wanted = for_custom p current load.custom after_memory in
      max_int p.min_replicas (min_int p.max_replicas wanted)

  abbrev pub cooldown : AutoscalerPolicy F → ℤ → ℤ → ℤ
  cooldown p current recommended =
      seconds
        (if goes_up current recommended then p.scale_up_cooldown_sec else p.scale_down_cooldown_sec)

  unfoldable pub is_cooling : Time → AutoscalerPolicy F → ℤ → ℤ → Bool
  unfolding sub_time
  is_cooling now p current recommended =
      not (is_zero p.last_scale_at)
      && ltb_ℤ (sub_time now p.last_scale_at) (cooldown p current recommended)

  unfoldable pub rescaled : Time → ℤ → Deployment F → Deployment F
  unfolding set_condition
  rescaled now recommended dep =
      let body =
        format "autoscaler adjusted replicas from %d to %d"
          (dep.spec.replicas ∷ recommended ∷ []) in
      record dep {
        spec = record dep.spec { replicas = recommended };
        generation = add64 dep.generation (pos 1);
        status = DeploymentStatus.pending;
        rollout_status = record dep.rollout_status {
          phase = "Autoscaling";
          message = body;
          started_at = stamped dep.rollout_status.started_at now;
          last_updated_at = now;
        };
        conditions =
            set_condition dep.conditions
              (condition DeploymentConditionType.progressing true "AutoscalerAdjusting" body now);
        updated_at = now;
      }

  unfoldable pub scaled_policy : Time → ℤ → ℤ → AutoscalerPolicy F → AutoscalerPolicy F
  scaled_policy now current recommended p = record p {
    last_scale_at = now;
    last_scale_direction = direction current recommended;
    updated_at = now;
  }

  -- The event's text leaves out the figures after the two numbers of replicas.
  unfoldable pub rescale : Time → AutoscalerPolicy F → ℤ → Deployment F → M F Unit
  unfolding rescaled scaled_policy update_deployment upsert_autoscaler_policy emit_event
  rescale now p recommended dep =
      let current = dep.spec.replicas in
      let reason =
        if goes_up current recommended then "AutoscalerScaleUp" else "AutoscalerScaleDown" in
      update_deployment (rescaled now recommended dep)
      >> (upsert_autoscaler_policy now (scaled_policy now current recommended p)
          >> ignore (
              emit_event now EventLevel.info "autoscaler" reason
                (format "autoscaler adjusted replicas %d -> %d" (current ∷ recommended ∷ [])) dep.id
                "" ""))

  -- The body of the loop, at a deployment that has samples.
  unfoldable pub adjust :
      Time → AutoscalerPolicy F → List (DeploymentMetricSample F) → Deployment F → M F Unit
  unfolding load_of recommend is_cooling rescale
  adjust now p samples dep =
      let current = dep.spec.replicas in
      let recommended = recommend p current (load_of now p samples) in
      if eqb_ℤ recommended current
      then done
      else if is_cooling now p current recommended
      then done
      else rescale now p recommended dep

  unfoldable pub adjust_one : Time → AutoscalerPolicy F → M F Unit
  unfolding get_deployment list_deployment_metrics adjust
  adjust_one now p = do
    found ← outcome (get_deployment p.deployment_id)
    elim found [
      | err _ ↦ done
      | ok dep ↦ do
        samples ← list_deployment_metrics dep.id (pos 200)
        if is_nil samples then done else adjust now p samples dep
    ]

  unfoldable pub reconcile_autoscaling : Time → M F Unit
  unfolding list_autoscaler_policies adjust_one
  reconcile_autoscaling now = do
    policies ← list_autoscaler_policies
    for_each policies (adjust_one now)

  unfoldable pub configured : Time → String → AutoscalerPolicy F → AutoscalerPolicy F
  configured now id p =
      let low = or_positive p.min_replicas (pos 1) in
      record p {
        id = id;
        min_replicas = low;
        max_replicas =
            if leb_ℤ p.max_replicas (pos 0) || ltb_ℤ p.max_replicas low
            then low
            else p.max_replicas;
        stabilization_window_sec = or_positive p.stabilization_window_sec (pos 30);
        scale_up_cooldown_sec = or_positive p.scale_up_cooldown_sec (pos 20);
        scale_down_cooldown_sec = or_positive p.scale_down_cooldown_sec (pos 40);
        predictive_lookback_samples =
            if p.predictive_scaling_enabled && leb_ℤ p.predictive_lookback_samples (pos 1)
            then pos 6
            else p.predictive_lookback_samples;
        predictive_scale_factor =
            if p.predictive_scaling_enabled && le p.predictive_scale_factor zero_f
            then of_int (pos 2)
            else p.predictive_scale_factor;
        created_at = stamped p.created_at now;
        updated_at = now;
      }

  unfoldable pub upsert_policy : Time → AutoscalerPolicy F → M F (AutoscalerPolicy F)
  unfolding get_deployment upsert_autoscaler_policy emit_event fresh_id configured
  upsert_policy now given =
      if is_blank given.deployment_id then fail (message "deployment id is required") else (do
        dep ← get_deployment given.deployment_id
        id ← (if is_blank given.id then fresh_id else pure given.id)
        let p = configured now id given
        upsert_autoscaler_policy now p
        ignore (
            emit_event now EventLevel.info "autoscaler" "AutoscalerPolicyUpserted"
              (text "Autoscaler policy configured") p.deployment_id "" "")
        pure p)

  unfoldable pub ingest_deployment_metric : Time → DeploymentMetricSample F → M F Unit
  unfolding get_deployment append_deployment_metric fresh_id
  ingest_deployment_metric now s =
      if is_blank s.deployment_id then fail (message "deployment id is required") else (do
        dep ← get_deployment s.deployment_id
        id ← (if str_eq s.id "" then fresh_id else pure s.id)
        append_deployment_metric now (record s { id = id; timestamp = stamped s.timestamp now }))
