-- ===== src/Reports/Termination.antt =====
-- What the report that a workload has terminated does.
use distributed_container_or.Base.{
  ℕ, ◌≡◌, refl, inl, inr, String, List, pos, ◌≤ℤ◌, arith, keep, none, some, ok, str_eq, eq_iff,
  if◌then◌else◌, Option-cases, ap, ◌∙◌, sym, subst,
}
use distributed_container_or.Model.Floats.{Time}
use distributed_container_or.Model.Cluster.{Workload, WorkloadStatus}
use distributed_container_or.Model.Deploy.{Deployment, DeploymentStatus}
use distributed_container_or.Store.Table.{lookup, lookup-insert, lookup-erase, values, erase}
use distributed_container_or.Store.State.{Orchestrator}
use distributed_container_or.Rollout.{running_count, running_or_pending_count}
use distributed_container_or.Reports.{
  free_node, completed, complete_deployment, end_workload, report_workload_status,
}

-- The active workloads of a deployment in a table.
abbrev pub left_of : String → List (String × Workload) → ℕ
left_of id t = running_or_pending_count (keep (λ w. str_eq w.deployment_id id) (values t))

module _ {F : Type 0} (now : Time) where
  free_node-effect :
      (w : Workload) (o : Orchestrator F)
      → ((free_node now w o).0 ≡ ok tt)
        × ((free_node now w o).1.workloads ≡ o.workloads)
        × ((free_node now w o).1.deployments ≡ o.deployments)
  unfolding free_node
  free_node-effect w o = elim (Option-cases (lookup w.node_id o.nodes)) [
    | inl e ↦ ground (arith, e)
    | inr (n, e) ↦ ground (arith, e)
  ]

  complete-effect :
      (id : String) (o : Orchestrator F)
      → ((complete_deployment now id o).0 ≡ ok tt)
        × ((complete_deployment now id o).1.workloads ≡ o.workloads)
  unfolding complete_deployment
  complete-effect id o = elim (Option-cases (lookup id o.deployments)) [
    | inl e ↦ ground (arith, e)
    | inr (d, e) ↦ ground (arith, e)
  ]

  complete-lookup :
      (dep : Deployment F) (o : Orchestrator F)
      → lookup dep.id o.deployments ≡ some dep
      → pos (left_of dep.id o.workloads) ≤ℤ dep.spec.replicas
      → (d : Deployment F) × (lookup dep.id (complete_deployment now dep.id o).1.deployments
          ≡ some d)
        × (d.status ≡ DeploymentStatus.running)
        × (d.rollout_status.phase ≡ "Stable")
  unfolding complete_deployment completed
  complete-lookup dep o found few =
      let ws = keep (λ w. str_eq w.deployment_id dep.id) (values o.workloads) in
      let d = completed now dep (running_count ws) (running_or_pending_count ws) in
      (
        d,
        ground
            (arith, found, few, lookup-insert dep.id dep.id d o.deployments, eq_iff dep.id dep.id),
        refl,
        refl,
      )

  -- The state when the deployment of a terminated workload is looked at.
  abbrev removed : Workload → Orchestrator F → Orchestrator F
  removed w o = record (free_node now w o).1 {
    workloads = erase w.id (free_node now w o).1.workloads;
  }

  end_steps :
      (w : Workload) (o : Orchestrator F)
      → ((end_workload now w o).0 ≡ ok tt)
        × ((end_workload now w o).1.workloads
            ≡ (complete_deployment now w.deployment_id (removed w o)).1.workloads)
        × ((end_workload now w o).1.deployments
            ≡ (complete_deployment now w.deployment_id (removed w o)).1.deployments)
  unfolding end_workload
  end_steps w o =
      ground (arith, (free_node-effect w o).0, (complete-effect w.deployment_id (removed w o)).0)

  report_steps :
      (o : Orchestrator F) (w : Workload) (container_id : String)
      → lookup w.id o.workloads ≡ some w
      → report_workload_status now w.id WorkloadStatus.terminated container_id o
        ≡ end_workload now w o
  unfolding report_workload_status
  report_steps o w container_id found = ground (arith, found)

  -- A report that a stored workload has terminated succeeds, whatever else is stored; the workload is
  -- gone and no other is touched.
  pub report-terminated :
      (o : Orchestrator F) (w : Workload) (container_id : String)
      → lookup w.id o.workloads ≡ some w
      → ((report_workload_status now w.id WorkloadStatus.terminated container_id o).0 ≡ ok tt)
        × ((id : String)
            → lookup id
                (report_workload_status now w.id WorkloadStatus.terminated container_id
                  o).1.workloads
              ≡ (if str_eq w.id id then none else lookup id o.workloads))
  report-terminated o w container_id found =
      let steps = end_steps w o in
      let freed = free_node-effect w o in
      let gone =
        steps.1 ∙ (complete-effect w.deployment_id (removed w o)).1 ∙ ap (erase w.id) freed.1 in
      rw (report_steps o w container_id found)
        (steps.0, λ id. ap (lookup id) gone ∙ lookup-erase w.id id o.workloads)

  -- A report that a stored workload has terminated writes its deployment as running and stable wherever
  -- no more workloads than the replicas are left active, so also where none is left.
  pub report-overclaims :
      (o : Orchestrator F) (w : Workload) (dep : Deployment F) (container_id : String)
      → lookup w.id o.workloads ≡ some w
      → lookup dep.id o.deployments ≡ some dep
      → w.deployment_id ≡ dep.id
      → pos (left_of dep.id (erase w.id o.workloads)) ≤ℤ dep.spec.replicas
      → (d : Deployment F) × (lookup dep.id
            (report_workload_status now w.id WorkloadStatus.terminated container_id o).1.deployments
          ≡ some d)
        × (d.status ≡ DeploymentStatus.running)
        × (d.rollout_status.phase ≡ "Stable")
  report-overclaims o w dep container_id found dep_found owner few =
      let freed = free_node-effect w o in
      let bound =
        subst (λ t. pos (left_of dep.id t) ≤ℤ dep.spec.replicas) (ap (erase w.id) (sym freed.1))
          few in
      let (d, at, status, phase) =
        complete-lookup dep (removed w o) (ap (lookup dep.id) freed.2 ∙ dep_found) bound in
      rw (report_steps o w container_id found) (
        d,
        ap (lookup dep.id) (
              (end_steps w o).2
              ∙ ap (λ i. (complete_deployment now i (removed w o)).1.deployments) owner)
            ∙ at,
        status,
        phase,
      )
