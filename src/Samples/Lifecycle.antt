-- ===== src/Samples/Lifecycle.antt =====
-- The theorems on nodes, reports, deletions, rollbacks and creation at concrete states.
use distributed_container_or.Base.{
  sub64, wrap64, add64, ◌-ℤ◌, ◌+ℤ◌, slice_stable, ℕ, ◌-◌, ◌*◌, ◌≤◌, ◌<◌, ◌≡◌, refl, ◌↔◌, ◌⊎◌,
  String, true, false, List, [], ◌∷◌, ℤ, pos, arith, length, min, Elem, none, some, ok,
  if◌then◌else◌, ◌*ℤ◌, Bool, eqb_ℤ,
}
use distributed_container_or.Model.Cluster.{
  Node, NodeStatus, NodeFailureClass, Workload, Assignment,
}
use distributed_container_or.Model.Deploy.{Deployment, DeploymentSpec, DeploymentRevision}
use distributed_container_or.Store.Table.{lookup, values, has_key}
use distributed_container_or.Store.State.{Orchestrator}
use distributed_container_or.Store.{pop_assignments}
use distributed_container_or.Store.Queue.{IsQueuedUnder, queued, pop_assignments_lem}
use distributed_container_or.Health.{measured, judged}
use distributed_container_or.Health.Classes.{judged_lem}
use distributed_container_or.Nodes.{is_on, remediate_unhealthy_node}
use distributed_container_or.Nodes.Draining.{IsEnding, remediate_lem}
use distributed_container_or.Reports.Termination.{left_of}
use distributed_container_or.Deletion.{reconcile_deletion}
use distributed_container_or.Deletion.Safety.{IsCleaned, reconcile_deletion_iff}
use distributed_container_or.Rollout.{
  running_or_pending_count, normalize_rollout_spec, min_int, active_for_revision, active_workloads,
  running_count,
}
use distributed_container_or.Rollout.Spec.{IsNormal}
use distributed_container_or.Reconcile.{find_revision, deadline_exceeded, create_workloads, stall}
use distributed_container_or.Rollback.{rolled_back}
use distributed_container_or.Rollback.Revisions.{IsRecorded, rolled_back_twice}
use distributed_container_or.Updates.{NextSpec, update_deployment_service}
use distributed_container_or.Updates.Revisions.{IsAsked, Recorded, update_deployment_lem}
use distributed_container_or.Status.{reconcile_deployment, roll, follow}
use distributed_container_or.Placement.{delete_assignment, create_workload_for_deployment, place}
use distributed_container_or.Scheduler.{select_node, candidates}
use distributed_container_or.Replicas.{plan}
use distributed_container_or.Samples.{
  hundredths_float, size, node, rollout, spec, deployment, workload, empty,
}

abbrev beaten : Node ℤ
beaten = node "n1" [] (size 1_000 512)

judged_lem_example :
    ((judged (measured 100 30 beaten)).status ≡ NodeStatus.down ↔ 30 * 2 ≤ 100 - 5)
    × ((judged (measured 100 30 beaten)).health.failure_class ≡ NodeFailureClass.critical
        ↔ 30 * 2 ≤ 100 - 5)
    × ((judged (measured 100 30 beaten)).status ≡ NodeStatus.ready ↔ 100 - 5 < 30)
judged_lem_example = judged_lem 100 30 beaten (omega arith) (omega arith) (omega arith)

abbrev w : Workload
w = workload "w1" "d" 0 1 3

abbrev web : Deployment ℤ
web = record (deployment "d" (spec 0 [] (rollout 1 0))) { finalizers = "workloads.cleanup" ∷ [] }

abbrev running : Orchestrator ℤ
running = record empty {
  workloads = ("w1", w) ∷ [];
  deployments = ("d", web) ∷ [];
  nodes = ("n1", beaten) ∷ [];
  assignments = ("n1:a1", record (delete_assignment w) { id = "a1" }) ∷ [];
}

remediate_lem_example :
    ((remediate_unhealthy_node 9 "n1" "manual drain" running).0 ≡ ok tt)
    × ((v : Workload)
        → Elem v (values running.workloads)
        → is_on "n1" v ≡ true
        → IsEnding 9 "n1" "manual drain" v.id
            (remediate_unhealthy_node 9 "n1" "manual drain" running).1)
remediate_lem_example = remediate_lem 9 "n1" "manual drain" running

w_found : lookup "w1" running.workloads ≡ some w
unfolding lookup
w_found = refl

web_found : lookup "d" running.deployments ≡ some web
unfolding lookup
web_found = refl

none_left : left_of "d" [] ≡ 0
unfolding running_or_pending_count values
none_left = refl

reconcile_deletion_iff_example :
    (lookup "d" (reconcile_deletion 9 "d" running).1.deployments ≡ none)
    ↔ IsCleaned 9 "d" web running
reconcile_deletion_iff_example = reconcile_deletion_iff 9 web running web_found

zero_not_less :
    hundredths_float.lt (hundredths_float.of_int (pos 0)) (hundredths_float.of_int (pos 0)) ≡ false
unfolding ◌*ℤ◌
zero_not_less = refl

abbrev revision : ℕ → ℕ → DeploymentRevision ℤ
revision n surge = record { revision = pos n; spec = spec 0 [] (rollout surge 0); created_at = 1 }

abbrev revised : Deployment ℤ
revised = record web { revision_history = revision 1 2 ∷ revision 2 1 ∷ [] }

revised-IsNormal : IsNormal revised.spec.rollout
unfolding ◌*ℤ◌
revised-IsNormal = record {
  strategy = λ e. cc e;
  deadline = omega arith;
  failures = omega arith;
  window = omega arith;
  surge = omega arith;
  unavailable = omega arith;
  threshold = refl;
  enabled = λ e. cc e;
  percentage = λ e. cc e;
}

revised-IsRecorded : IsRecorded revised 2 (revision 2 1)
revised-IsRecorded = record {
  current = refl;
  found = refl;
  same = refl;
  normal = revised-IsNormal;
  not_later = (omega arith, (omega arith, tt));
}

rolled_back_twice_example :
    (find_revision (pos 2) (rolled_back 9 (pos 1) revised (revision 1 2)).revision_history
      ≡ some (revision 2 1))
    × ((rolled_back 10 (pos 2) (rolled_back 9 (pos 1) revised (revision 1 2)) (revision 2 1)).spec
        ≡ spec 0 [] (rollout 1 0))
rolled_back_twice_example =
    rolled_back_twice 9 10 (pos 1) revised 2 (revision 2 1) (revision 1 2) revised-IsRecorded

-- The comparison looks at the replicas alone.
abbrev same_replicas : DeploymentSpec ℤ → DeploymentSpec ℤ → Bool
same_replicas s t = eqb_ℤ s.replicas t.replicas

abbrev grown : NextSpec ℤ
grown = record {
  spec = record (spec 0 [] (rollout 1 0)) { replicas = pos 7 };
  has_labels = false;
  has_tolerations = false;
}

abbrev updating : Orchestrator ℤ
updating = record empty { deployments = ("d", revised) ∷ [] }

updating_stored : lookup "d" updating.deployments ≡ some revised
unfolding lookup
updating_stored = refl

update_deployment_lem_example :
    (d : Deployment ℤ) × ((update_deployment_service same_replicas 9 "d" grown updating).0 ≡ ok d)
    × (lookup revised.id
          (update_deployment_service same_replicas 9 "d" grown updating).1.deployments
        ≡ some d)
    × IsAsked same_replicas 9 grown revised.spec d.spec
    × Recorded same_replicas 9 grown revised 2 d.spec d
update_deployment_lem_example =
    update_deployment_lem same_replicas 9 grown zero_not_less updating "d" revised 2 (revision 2 1)
      updating_stored revised-IsRecorded (omega arith)

-- No node: the pass places nothing.
abbrev nowhere : Orchestrator ℤ
nowhere = record empty { deployments = ("d", web) ∷ [] }

abbrev passed : Orchestrator ℤ
passed = (reconcile_deployment 9 "d" nowhere).1

pass_ends : reconcile_deployment 9 "d" nowhere ≡ (ok tt, passed)
unfolding reconcile_deployment lookup deadline_exceeded normalize_rollout_spec roll follow
    create_workloads plan min_int sub64 wrap64 ◌-ℤ◌ active_for_revision active_workloads values
    add64 ◌+ℤ◌ create_workload_for_deployment place select_node stall slice_stable running_count
    candidates
pass_ends = refl

pop_assignments_lem_example :
    (popped : List (String × Assignment)) × ((pop_assignments "n1" 5 running).0
      ≡ ok (values popped))
    × ((e : String × Assignment)
        → Elem e popped
        → Elem e running.assignments × IsQueuedUnder running "n1" 5 e.0)
    × ((e : String × Assignment)
        → Elem e running.assignments
        → IsQueuedUnder running "n1" 5 e.0
        → Elem e popped ⊎ (length popped ≡ 5))
    × (length popped ≡ min 5 (length (queued running "n1" 5)))
    × ((key : String)
        → lookup key (pop_assignments "n1" 5 running).1.assignments
          ≡ (if has_key key popped then none else lookup key running.assignments))
pop_assignments_lem_example = pop_assignments_lem running "n1" 5
