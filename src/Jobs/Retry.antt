-- ===== src/Jobs/Retry.antt =====
-- A job whose workload fails and that may start anew.
use distributed_container_or.Base.{
  ◌≡◌, refl, false, pos, add64, ◌≤ℤ◌, ltb_ℤ, none, some, arith, ok, is_blank, str_eq, keep,
}
use distributed_container_or.Model.Floats.{Time}
use distributed_container_or.Model.Cluster.{Workload, is_running}
use distributed_container_or.Model.Work.{Job, JobPhase}
use distributed_container_or.Store.Table.{lookup, values, lookup-insert_self}
use distributed_container_or.Store.State.{Orchestrator, and_then}
use distributed_container_or.Store.Work.{stored_job}
use distributed_container_or.Jobs.{deciding, follow_running}

-- Where the first workload of a running job that runs or has failed has failed, and the failures stay
-- within the limit, the job is written as pending without its deployment, and the deployment that
-- failed is not marked for deletion: no deployment is touched, and no workload.
pub retry_leaks :
    {F : Type 0} (o : Orchestrator F) (now : Time) (job : Job F) (w : Workload)
    → is_blank job.deployment ≡ false
    → deciding (keep (λ v. str_eq v.deployment_id job.deployment) (values o.workloads)) ≡ some w
    → is_running w.status ≡ false
    → add64 job.failed (pos 1) ≤ℤ job.spec.backoff_limit
    → lookup "" o.deployments ≡ none
    → ((follow_running now job o).0 ≡ ok tt)
      × ((follow_running now job o).1.deployments ≡ o.deployments)
      × ((follow_running now job o).1.workloads ≡ o.workloads)
      × (lookup job.id (follow_running now job o).1.jobs
          ≡ some (
              stored_job now (record job {
                failed = add64 job.failed (pos 1);
                status = JobPhase.pending;
                deployment = "";
              })))
unfolding follow_running
retry_leaks o now job w named first stopped within absent =
    let past : ltb_ℤ job.spec.backoff_limit (add64 job.failed (pos 1)) ≡ false = ground arith in
    rw (named, first, and_then, stopped, past, absent)
      (refl, refl, refl, lookup-insert_self job.id _ o.jobs)
