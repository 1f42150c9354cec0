-- ===== src/Samples/Scaling.antt =====
-- The theorems on the autoscaler and on jobs at a concrete state.
use distributed_container_or.Base.{
  equal_fold, ◌-ℤ◌, wrap64, ◌+ℤ◌, div_ℤ, ◌*ℤ◌, is_blank, ◌≡◌, refl, false, [], ◌∷◌, ℤ, pos, sub64,
  add64, arith, some, none, ok,
}
use distributed_container_or.Model.Cluster.{Workload, WorkloadStatus}
use distributed_container_or.Model.Deploy.{Deployment}
use distributed_container_or.Model.Storage.{Namespace}
use distributed_container_or.Model.Work.{AutoscalerPolicy, DeploymentMetricSample, Job, JobPhase}
use distributed_container_or.Store.Table.{values, lookup}
use distributed_container_or.Store.State.{Orchestrator}
use distributed_container_or.Store.Work.{list_jobs, stored_job}
use distributed_container_or.Autoscaling.Metrics.{Load}
use distributed_container_or.Autoscaling.{recommend, adjust_one}
use distributed_container_or.Autoscaling.Cooldown.{Turn, adjust_one_lem}
use distributed_container_or.Jobs.{deciding, follow_running}
use distributed_container_or.Jobs.Retry.{retry_leaks}
use distributed_container_or.Samples.{hundredths_float, rollout, spec, deployment, workload, empty}

abbrev pub policy : AutoscalerPolicy ℤ
policy = record {
  id = "as-1";
  deployment_id = "d";
  min_replicas = pos 1;
  max_replicas = pos 8;
  target_cpu_utilization = pos 50;
  target_memory_utilization = pos 50;
  custom_metric_name = "";
  target_custom_metric_value = pos 0;
  predictive_scaling_enabled = false;
  predictive_lookback_samples = pos 0;
  predictive_scale_factor = pos 0;
  stabilization_window_sec = pos 30;
  scale_up_cooldown_sec = pos 20;
  scale_down_cooldown_sec = pos 40;
  last_scale_at = 0;
  last_scale_direction = "";
  created_at = 1;
  updated_at = 1;
}

-- Twice the CPU that is aimed at, and little memory.
abbrev pub demand : Load ℤ
demand = record { cpu = pos 100; memory = pos 10; custom = pos 0 }

-- CPU alone asks for eight replicas; with idle memory three are left of four.
scaled_down_under_load : recommend policy (pos 4) demand ≡ pos 3
unfolding recommend is_blank ◌*ℤ◌ div_ℤ ◌+ℤ◌ sub64 wrap64 ◌-ℤ◌
scaled_down_under_load = refl

abbrev sample : DeploymentMetricSample ℤ
sample = record {
  id = "m1";
  deployment_id = "d";
  timestamp = 3;
  cpu_usage = pos 100;
  memory_usage = pos 40;
  custom = [];
}

abbrev web : Deployment ℤ
web = deployment "d" (spec 0 [] (rollout 1 0))

abbrev metered : Orchestrator ℤ
metered = record empty {
  deployments = ("d", web) ∷ [];
  autoscalers = ("as-1", policy) ∷ [];
  metrics = ("d:1:m1", sample) ∷ [];
}

adjust_one_lem_example :
    ((adjust_one 9 policy metered).0 ≡ ok tt)
    × Turn 9 policy metered (adjust_one 9 policy metered).1
adjust_one_lem_example = adjust_one_lem 9 policy metered

abbrev job : Job ℤ
job = record {
  id = "job-1";
  spec = record {
    namespace = "default";
    name = "report";
    template = spec 0 [] (rollout 1 0);
    completions = pos 1;
    backoff_limit = pos 3;
    ttl_seconds = pos 0;
    history_limit = pos 0;
    schedule_reason = "";
  };
  status = JobPhase.running;
  deployment = "d";
  succeeded = pos 0;
  failed = pos 0;
  run_count = pos 0;
  last_run_at = 0;
  completed_at = 0;
  created_at = 1;
  updated_at = 1;
}

abbrev default_namespace : Namespace
default_namespace = record { name = "default"; tenant = "default"; created_at = 1; updated_at = 1 }

abbrev crashed : Workload
crashed = record (workload "w1" "d" 0 1 3) { status = WorkloadStatus.failed }

abbrev working : Orchestrator ℤ
working = record empty {
  deployments = ("d", web) ∷ [];
  workloads = ("w1", crashed) ∷ [];
  jobs = ("job-1", job) ∷ [];
  namespaces = ("default", default_namespace) ∷ [];
}

jobs_listed : (list_jobs "default" working).0 ≡ ok (job ∷ [])
unfolding list_jobs is_blank values equal_fold
jobs_listed = refl

no_deployment : lookup "" working.deployments ≡ none
unfolding lookup
no_deployment = refl

retry_leaks_example :
    ((follow_running 9 job working).0 ≡ ok tt)
    × ((follow_running 9 job working).1.deployments ≡ working.deployments)
    × ((follow_running 9 job working).1.workloads ≡ working.workloads)
    × (lookup "job-1" (follow_running 9 job working).1.jobs
        ≡ some (
            stored_job 9 (record job {
              failed = add64 (pos 0) (pos 1);
              status = JobPhase.pending;
              deployment = "";
            })))
unfolding is_blank deciding values add64 wrap64 ◌+ℤ◌
retry_leaks_example = retry_leaks working 9 job crashed refl refl refl (omega arith) no_deployment
