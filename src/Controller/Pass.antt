-- ===== src/Controller/Pass.antt =====
-- A whole pass tries every step.
use distributed_container_or.Base.{◌++◌, map, ℕ, ◌≡◌, refl, String, List, [], ◌∷◌, ok}
use distributed_container_or.Model.Floats.{Float, Time}
use distributed_container_or.Model.Cluster.{Node}
use distributed_container_or.Model.Deploy.{Deployment}
use distributed_container_or.Admission.{Admit}
use distributed_container_or.Store.Table.{values}
use distributed_container_or.Store.State.{Orchestrator, M, ◌>>◌, done, for_each}
use distributed_container_or.Nodes.{remediate_unhealthy_node}
use distributed_container_or.Nodes.Draining.{remediate_lem}
use distributed_container_or.Health.{judged, measured, is_warning, update_one, update_node_health}
use distributed_container_or.Autoscaling.{reconcile_autoscaling}
use distributed_container_or.Liveness.{evaluate_workload_health}
use distributed_container_or.Services.{reconcile_all_service_endpoints}
use distributed_container_or.Volumes.{reconcile_pvc_bindings}
use distributed_container_or.Jobs.{reconcile_jobs_and_cron}
use distributed_container_or.Controller.{logged, reconcile_one, reconcile_all, reconcile_logged}
use distributed_container_or.Controller.Steps.{
  Succeeds, Tries, AllTried, >>-Succeeds, for_each-Succeeds, if-Succeeds, >>-Tries, logged-Tries,
  Succeeds-Tries, for_each-Tries,
}

module _ {F : Type 0} ⦃fl : Float F⦄ where
  update_one-Succeeds : (now : Time) (ttl : ℕ) (n : Node F) → Succeeds (update_one now ttl n)
  unfolding update_one
  update_one-Succeeds now ttl n o =
      let m = judged (measured now ttl n) in
      if-Succeeds _ _ _
        (>>-Succeeds (remediate_unhealthy_node now m.id m.health.reason) _
          (λ q. (remediate_lem now m.id m.health.reason q).0) (λ q. refl))
        (if-Succeeds (is_warning m.health.failure_class) _ done (λ q. refl) (λ q. refl)) _

  pub update_node_health-Succeeds : (now : Time) → Succeeds (update_node_health {F = F} now)
  unfolding update_node_health
  update_node_health-Succeeds now o =
      for_each-Succeeds (values o.nodes) (update_one now o.node_ttl)
        (update_one-Succeeds now o.node_ttl) o

  reconcile_logged-Tries :
      (now : Time) (dep : Deployment F)
      → Tries (reconcile_one now dep ∷ []) (reconcile_logged {F = F} now dep)
  unfolding reconcile_logged
  reconcile_logged-Tries now dep = logged-Tries now "reconcile" _ dep.id (reconcile_one now dep)

  -- The steps after those of the deployments.
  abbrev pub later_steps : Time → Admit F → List (M F Unit)
  later_steps now admit =
      reconcile_autoscaling now
      ∷ evaluate_workload_health now
      ∷ reconcile_all_service_endpoints now
      ∷ reconcile_pvc_bindings now
      ∷ reconcile_jobs_and_cron now admit
      ∷ update_node_health now
      ∷ []

  -- All that follows the deployments.
  abbrev later : Time → Admit F → M F Unit
  later now admit =
      logged now "autoscaler" "AutoscalerReconcileFailed" "" (reconcile_autoscaling now)
      >> (logged now "health" "WorkloadHealthCheckFailed" "" (evaluate_workload_health now)
          >> (logged now "service" "ServiceEndpointReconcileFailed" ""
                (reconcile_all_service_endpoints now)
              >> (logged now "storage" "PVCBindingReconcileFailed" "" (reconcile_pvc_bindings now)
                  >> (logged now "job" "JobReconcileFailed" "" (reconcile_jobs_and_cron now admit)
                      >> update_node_health now))))

  >>-logged :
      (now : Time) (type reason : String) (step k : M F Unit) (ts : List (M F Unit))
      → Tries ts k
      → Tries (step ∷ ts) (logged now type reason "" step >> k)
  >>-logged now type reason step k ts g =
      >>-Tries (step ∷ []) ts (logged now type reason "" step) k
        (logged-Tries now type reason "" step) g

  later-Tries : (now : Time) (admit : Admit F) → Tries (later_steps now admit) (later now admit)
  later-Tries now admit =
      let l1 : List (M F Unit) = update_node_health now ∷ [] in
      let l2 : List (M F Unit) = reconcile_jobs_and_cron now admit ∷ l1 in
      let l3 : List (M F Unit) = reconcile_pvc_bindings now ∷ l2 in
      let l4 : List (M F Unit) = reconcile_all_service_endpoints now ∷ l3 in
      let l5 : List (M F Unit) = evaluate_workload_health now ∷ l4 in
      >>-logged now "autoscaler" "AutoscalerReconcileFailed" (reconcile_autoscaling now) _ l5 (
        >>-logged now "health" "WorkloadHealthCheckFailed" (evaluate_workload_health now) _ l4 (
          >>-logged now "service" "ServiceEndpointReconcileFailed"
            (reconcile_all_service_endpoints now) _ l3
            (>>-logged now "storage" "PVCBindingReconcileFailed" (reconcile_pvc_bindings now) _ l2 (
              >>-logged now "job" "JobReconcileFailed" (reconcile_jobs_and_cron now admit) _ l1
                (Succeeds-Tries (update_node_health now) (update_node_health-Succeeds now))))))

  -- A pass over the whole cluster succeeds, and no failure stops it: it tries each deployment in turn, then
  -- the autoscaler, the workloads' health, the endpoints, the claims, the jobs and the nodes' health,
  -- each in the state that the one before left, and reports each that fails by an event of its error.
  pub reconcile_all_lem :
      (now : Time) (admit : Admit F) (o : Orchestrator F)
      → (o' : Orchestrator F) × (reconcile_all now admit o ≡ (ok tt, o'))
        × AllTried (map (reconcile_one now) (values o.deployments) ++ later_steps now admit) o o'
  unfolding reconcile_all
  reconcile_all_lem now admit o =
      >>-Tries (map (reconcile_one now) (values o.deployments)) (later_steps now admit)
        (for_each (values o.deployments) (reconcile_logged now)) (later now admit)
        (for_each-Tries (values o.deployments) (reconcile_one now) (reconcile_logged now)
          (reconcile_logged-Tries now))
        (later-Tries now admit) o
