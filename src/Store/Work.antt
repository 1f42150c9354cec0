-- ===== src/Store/Work.antt =====
-- internal/store/store.go: autoscaler policies, metrics, jobs and cron jobs.
use Prim.Native.String.{◌++◌ as append}
use distributed_container_or.Base.{
  ℕ, ◌-◌, String, List, ℤ, pos, pos_part, str_eq, if◌then◌else◌, keep, length, drop, is_blank,
  trim_space, equal_fold, leb_ℤ, rfc3339_nano,
}
use distributed_container_or.Model.Floats.{Time}
use distributed_container_or.Model.Work.{
  Job, JobPhase, CronJob, DeploymentMetricSample, AutoscalerPolicy,
}
use distributed_container_or.Store.Table.{lookup, insert, erase, values}
use distributed_container_or.Store.State.{M, ◌>>=◌, pure, read, modify, or_not_found}
use distributed_container_or.Store.{stamped, join_key, with_prefix, fresh_id}

-- `items[len(items)-limit:]` where there are more.
abbrev pub newest {ℓ} : {A : Type ℓ} → ℕ → List A → List A
newest limit items = drop (length items - limit) items

abbrev pub default_phase : JobPhase → JobPhase
default_phase JobPhase.unset = JobPhase.pending
default_phase p = p

module _ {F : Type 0} where
  unfoldable pub upsert_autoscaler_policy : Time → AutoscalerPolicy F → M F Unit
  upsert_autoscaler_policy now p =
      let updated = stamped p.updated_at now in
      modify λ o. record o {
        autoscalers =
            insert p.id
              (record p { updated_at = updated; created_at = stamped p.created_at updated })
              o.autoscalers;
      }

  unfoldable pub list_autoscaler_policies : M F (List (AutoscalerPolicy F))
  list_autoscaler_policies = read λ o. values o.autoscalers

  unfoldable pub delete_autoscaler_policy : String → M F Unit
  delete_autoscaler_policy id = modify λ o. record o { autoscalers = erase id o.autoscalers }

  unfoldable pub metric_key : DeploymentMetricSample F → String
  metric_key s = join_key s.deployment_id (join_key (rfc3339_nano s.timestamp) s.id)

  unfoldable pub append_deployment_metric : Time → DeploymentMetricSample F → M F Unit
  unfolding metric_key fresh_id
  append_deployment_metric now s = do
    id ← (if str_eq s.id "" then fresh_id else pure s.id)
    let stored = record s { id = id; timestamp = stamped s.timestamp now }
    modify (λ o. record o { metrics = insert (metric_key stored) stored o.metrics })

  unfoldable pub list_deployment_metrics : String → ℤ → M F (List (DeploymentMetricSample F))
  unfolding with_prefix
  list_deployment_metrics deployment_id limit =
      let most : ℤ = if leb_ℤ limit (pos 0) then pos 100 else limit in
      read λ o. newest (pos_part most) (values (with_prefix (append deployment_id ":") o.metrics))

  unfoldable pub stored_job : Time → Job F → Job F
  stored_job now job = record job {
    created_at = stamped job.created_at now;
    updated_at = now;
    status = default_phase job.status;
  }

  unfoldable pub upsert_job : Time → Job F → M F Unit
  unfolding stored_job
  upsert_job now job = modify λ o. record o { jobs = insert job.id (stored_job now job) o.jobs }

  unfoldable pub get_job : String → M F (Job F)
  get_job id = do t ← read (λ o. o.jobs); or_not_found (lookup id t)

  unfoldable pub list_jobs : String → M F (List (Job F))
  list_jobs namespace = do
    jobs ← read (λ o. values o.jobs)
    pure (
        if is_blank namespace
        then jobs
        else keep (λ j. equal_fold (trim_space j.spec.namespace) (trim_space namespace)) jobs)

  unfoldable pub delete_job : String → M F Unit
  delete_job id = modify λ o. record o { jobs = erase id o.jobs }

  unfoldable pub upsert_cron_job : Time → CronJob F → M F Unit
  upsert_cron_job now cj = modify λ o. record o {
    cron_jobs =
        insert (join_key cj.namespace cj.name)
          (record cj {
            created_at = stamped cj.created_at now;
            updated_at = now;
            schedule_every_s =
                if leb_ℤ cj.schedule_every_s (pos 0) then pos 60 else cj.schedule_every_s;
          })
          o.cron_jobs;
  }

  unfoldable pub get_cron_job : String → String → M F (CronJob F)
  get_cron_job namespace name = do
    t ← read (λ o. o.cron_jobs)
    or_not_found (lookup (join_key namespace name) t)

  unfoldable pub list_cron_jobs : String → M F (List (CronJob F))
  unfolding with_prefix
  list_cron_jobs namespace = read λ o. values (with_prefix (append namespace ":") o.cron_jobs)
