-- ===== src/Jobs.antt =====
-- internal/service/features.go: jobs and cron jobs, and the pass over them.
pub mod Listing
pub mod Retry
use Prim.Native.String.{◌++◌ as append}
use distributed_container_or.Base.{
  ℕ, ◌-◌, ◌*◌, ◌/◌, String, Bool, true, false, not, ◌&&◌, ◌||◌, List, [], ◌∷◌, ◌++◌, ℤ, pos, add64,
  ltb_ℤ, leb_ℤ, if◌then◌else◌, find, is_blank, decimal, Option, none, some, Result, ok, err, Error,
  message,
}
use distributed_container_or.Model.Floats.{Float, Time, is_zero, second, sub_time}
use distributed_container_or.Model.Cluster.{Workload, is_running, is_failed}
use distributed_container_or.Model.Deploy.{Deployment, DeploymentSpec}
use distributed_container_or.Model.Storage.{Namespace}
use distributed_container_or.Model.Work.{Job, JobSpec, JobPhase, CronJob}
use distributed_container_or.Quota.{or_default}
use distributed_container_or.Services.{unix_nano}
use distributed_container_or.Services.Collecting.{seconds}
use distributed_container_or.Autoscaling.{or_positive}
use distributed_container_or.Admission.{Admit, create_deployment_service}
use distributed_container_or.Deletion.{mark_deleted}
use distributed_container_or.Store.State.{
  Orchestrator, M, ◌>>=◌, ◌>>◌, pure, fail, done, outcome, ignore, for_each,
}
use distributed_container_or.Store.{list_namespaces, list_workloads_by_deployment, fresh_id}
use distributed_container_or.Store.Work.{
  default_phase, upsert_job, get_job, list_jobs, delete_job, upsert_cron_job, get_cron_job,
  list_cron_jobs,
}

-- The first workload that settles a running job.
unfoldable pub deciding : List Workload → Option Workload
deciding = find (λ w. is_running w.status || is_failed w.status)

module _ {F : Type 0} where
  unfoldable pub normalized_job : String → Job F → Job F
  normalized_job id job = record job {
    id = id;
    spec = record job.spec {
      namespace = or_default job.spec.namespace;
      completions = or_positive job.spec.completions (pos 1);
      backoff_limit =
          if ltb_ℤ job.spec.backoff_limit (pos 0) then pos 0 else job.spec.backoff_limit;
    };
    status = default_phase job.status;
  }

  unfoldable pub upsert_job_service : Time → Job F → M F (Job F)
  unfolding fresh_id normalized_job upsert_job get_job
  upsert_job_service now job =
      if is_blank job.spec.name then fail (message "job name is required") else (do
        id ← (if is_blank job.id then fresh_id else pure job.id)
        upsert_job now (normalized_job id job)
        get_job id)

  unfoldable pub upsert_cron_job_service : Time → CronJob F → M F (CronJob F)
  unfolding upsert_cron_job get_cron_job
  upsert_cron_job_service now given =
      let cj = record given {
        namespace = or_default given.namespace;
        history_limit = or_positive given.history_limit (pos 5);
      } in
      if is_blank cj.name
      then fail (message "cronjob name is required")
      else if leb_ℤ cj.schedule_every_s (pos 0)
      then fail (message "cronjob scheduleEverySeconds must be > 0")
      else (upsert_cron_job now cj >> get_cron_job cj.namespace cj.name)

  abbrev pub is_due : Time → CronJob F → Bool
  is_due now cj =
      is_zero cj.last_run_at || leb_ℤ (seconds cj.schedule_every_s) (sub_time now cj.last_run_at)

  unfoldable pub spawned : Time → CronJob F → Job F
  spawned now cj = record {
    id = "";
    spec = record cj.template {
      namespace = cj.namespace;
      name = append cj.name (append "-" (decimal (pos (unix_nano now / second))));
      schedule_reason = "cron";
    };
    status = JobPhase.pending;
    deployment = "";
    succeeded = pos 0;
    failed = pos 0;
    run_count = pos 0;
    last_run_at = 0;
    completed_at = 0;
    created_at = 0;
    updated_at = 0;
  }

  unfoldable pub fire : Time → CronJob F → M F Unit
  unfolding sub_time spawned upsert_job_service upsert_cron_job
  fire now cj = if cj.suspend || not (is_due now cj) then done else (do
    made ← outcome (upsert_job_service now (spawned now cj))
    elim made [
      | err _ ↦ done
      | ok _ ↦ ignore (upsert_cron_job now (record cj { last_run_at = now }))
    ])

  -- The items so far, then those of each namespace.
  unfoldable pub over_namespaces :
      {A : Type 0} → (String → M F (List A)) → List A → List Namespace → M F (List A)
  over_namespaces list items [] = pure items
  over_namespaces list items (ns ∷ nss) = do
    found ← outcome (list ns.name)
    let more : List _ = elim found [ ok xs ↦ items ++ xs | err _ ↦ items ]
    over_namespaces list more nss

  abbrev pub succeeded_job : Time → Job F → Job F
  succeeded_job now job = record job {
    succeeded = add64 job.succeeded (pos 1);
    run_count = add64 job.run_count (pos 1);
    status = JobPhase.succeeded;
    completed_at = now;
  }

  -- A failure that goes past the limit ends the job; any other has it start anew.
  unfoldable pub failed_job : Time → Job F → Job F
  failed_job now job =
      let failed = add64 job.failed (pos 1) in
      if ltb_ℤ job.spec.backoff_limit failed
      then record job { failed = failed; status = JobPhase.failed; completed_at = now }
      else record job { failed = failed; status = JobPhase.pending; deployment = "" }

  unfoldable pub conclude_job : Time → Job F → M F Unit
  unfolding upsert_job mark_deleted
  conclude_job now job = do ignore (upsert_job now job); ignore (mark_deleted now job.deployment)

  unfoldable pub follow_running : Time → Job F → M F Unit
  unfolding list_workloads_by_deployment deciding failed_job conclude_job
  follow_running now job = if is_blank job.deployment then done else (do
    workloads ← list_workloads_by_deployment job.deployment
    elim (deciding workloads) [
      | none ↦ done
      | some w ↦
          if is_running w.status
          then conclude_job now (succeeded_job now job)
          else conclude_job now (failed_job now job)
    ])

  unfoldable pub expire : Time → Job F → M F Unit
  unfolding delete_job sub_time
  expire now job =
      if ltb_ℤ (pos 0) job.spec.ttl_seconds
        && not (is_zero job.completed_at)
        && leb_ℤ (seconds job.spec.ttl_seconds) (sub_time now job.completed_at)
      then ignore (delete_job job.id)
      else done

module _ {F : Type 0} ⦃fl : Float F⦄ where
  abbrev pub job_deployment : Job F → DeploymentSpec F
  job_deployment job = record job.spec.template {
    namespace = job.spec.namespace;
    name = append "job-" job.id;
    replicas = pos 1;
  }

  unfoldable pub start_job : Time → Admit F → Job F → M F Unit
  unfolding upsert_job create_deployment_service
  start_job now admit job = if not (is_blank job.deployment) then done else (do
    made ← outcome (create_deployment_service now admit (job_deployment job))
    elim made [
      | err _ ↦ done
      | ok dep ↦
          ignore (upsert_job now (record job { deployment = dep.id; status = JobPhase.running }))
    ])

  unfoldable pub advance_as : JobPhase → Time → Admit F → Job F → M F Unit
  unfolding start_job follow_running expire
  advance_as JobPhase.pending now admit job = start_job now admit job
  advance_as JobPhase.running now admit job = follow_running now job
  advance_as JobPhase.succeeded now admit job = expire now job
  advance_as JobPhase.failed now admit job = expire now job
  advance_as JobPhase.unset now admit job = done

  unfoldable pub reconcile_jobs_and_cron : Time → Admit F → M F Unit
  unfolding over_namespaces fire advance_as list_jobs list_cron_jobs list_namespaces
  reconcile_jobs_and_cron now admit = do
    of_default ← list_cron_jobs "default"
    namespaces ← list_namespaces
    cron_jobs ← over_namespaces list_cron_jobs of_default namespaces
    for_each cron_jobs (fire now)
    jobs_of_default ← list_jobs "default"
    jobs ← over_namespaces list_jobs jobs_of_default namespaces
    for_each jobs (λ job. advance_as job.status now admit job)
