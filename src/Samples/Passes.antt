-- ===== src/Samples/Passes.antt =====
-- The reconciler's theorems at concrete states.
use distributed_container_or.Scheduler.{select_node, schedulable, select_node}
use distributed_container_or.Base.{
  ◌*ℤ◌, some, max, is_blank, ◌-ℤ◌, wrap64, sub64, slice_stable, ◌+◌, ◌≤◌, ◌≡◌, ◌≢◌, refl, ◌⊎◌, true,
  false, List, [], ◌∷◌, ℤ, pos, ◌<ℤ◌, arith, length, min, Elem, none, ok, err, not_found, eq_iff,
}
use distributed_container_or.Model.Cluster.{Node, Workload}
use distributed_container_or.Model.Deploy.{Deployment}
use distributed_container_or.Store.Table.{lookup, values, IsKeyed}
use distributed_container_or.Store.State.{Orchestrator}
use distributed_container_or.Rollout.{active_workloads}
use distributed_container_or.Replicas.Bounds.{IsInRange}
use distributed_container_or.Secrets.{resolve_secret_files_for_deployment}
use distributed_container_or.Placement.{
  place, try_preempt_for_priority, host_of, create_workload_for_deployment,
}
use distributed_container_or.Placement.Preemption.{HasEvicted, try_preempt_lem}
use distributed_container_or.Placement.Bookkeeping.{HasPlaced, create_ok}
use distributed_container_or.Reconcile.{scale_down}
use distributed_container_or.Reconcile.Totals.{live, scale_down_lem}
use distributed_container_or.Status.{roll, prepared, reconcile_deployment}
use distributed_container_or.Status.Outcome.{Ends, reconcile_deployment_lem}
use distributed_container_or.Rollout.{normalize_rollout_spec}
use distributed_container_or.Reconcile.{deadline_exceeded}
use distributed_container_or.Status.Surge.{roll_lem}
use distributed_container_or.Status.Standstill.{active, roll_still}
use distributed_container_or.Samples.{
  hundredths_float, size, node, rollout, spec, deployment, workload, empty,
}

abbrev web : Deployment ℤ
web = deployment "d" (spec 5 [] (rollout 0 0))

abbrev old_two : List Workload
old_two = workload "w1" "d" 0 1 3 ∷ workload "w2" "d" 0 1 4 ∷ []

abbrev running_old : Orchestrator ℤ
running_old = record empty {
  workloads = ("w1", workload "w1" "d" 0 1 3) ∷ ("w2", workload "w2" "d" 0 1 4) ∷ [];
  nodes = ("n1", node "n1" [] (size 2_000 1_024)) ∷ [];
}

web-IsInRange : IsInRange web.spec 2 0 0 20
web-IsInRange = record {
  replicas = refl;
  surge = refl;
  unavailable = refl;
  percentage = refl;
  at_most = omega arith;
  replicas_bound = omega arith;
  surge_bound = omega arith;
  unavailable_bound = omega arith;
}

two_active : length (active web running_old) ≡ 2
unfolding values active_workloads
two_active = refl

roll_still_example :
    ((roll 9 web running_old).1.workloads ≡ running_old.workloads)
    × ((roll 9 web running_old).1.assignments ≡ [])
roll_still_example = roll_still 9 web running_old 2 20 web-IsInRange two_active

running_old-IsKeyed : IsKeyed running_old.workloads
running_old-IsKeyed k = ground (arith, eq_iff "w1" k, eq_iff "w2" k, eq_iff "w1" "w2")

two_live : live 9 web running_old ≡ 2
unfolding values
two_live = refl

scale_down_lem_example :
    ((scale_down 9 web (pos 1) running_old).0 ≡ ok tt)
    × (min (live 9 web running_old) (min 1 2) ≤ live 9 web (scale_down 9 web (pos 1) running_old).1)
scale_down_lem_example =
    scale_down_lem 9 web running_old 2 1 running_old-IsKeyed (omega (arith, two_live)) refl
      (omega arith) (omega arith)

abbrev batch : Deployment ℤ
batch = deployment "b" (spec 5 [] (rollout 1 0))

try_preempt_lem_example :
    ((v : Workload) × (n : Node ℤ) × ((try_preempt_for_priority 9 batch
          (size 3_000 512)
          running_old).0
        ≡ ok true)
      × HasEvicted 9 batch
          (size 3_000 512)
          running_old
          (try_preempt_for_priority 9 batch (size 3_000 512) running_old).1
          v
          n)
    ⊎ ((try_preempt_for_priority 9 batch (size 3_000 512) running_old ≡ (ok false, running_old))
        × ((w : Workload)
            → Elem w (values running_old.workloads)
            → w.priority <ℤ pos 5
            → w.deployment_id ≢ "b"
            → host_of (values running_old.nodes) (size 3_000 512) w ≡ none))
try_preempt_lem_example = try_preempt_lem 9 batch (size 3_000 512) running_old

abbrev room : Node ℤ
room = node "n1" [] (size 2_000 1_024)

chosen : place 9 batch running_old ≡ (ok room, running_old)
unfolding place select_node slice_stable values schedulable sub64 wrap64 ◌-ℤ◌
chosen = refl

no_secrets : (resolve_secret_files_for_deployment batch running_old).0 ≡ ok []
unfolding resolve_secret_files_for_deployment slice_stable
no_secrets = refl

create_ok_example :
    ((create_workload_for_deployment 9 batch running_old).0 ≡ ok tt)
    × HasPlaced 9 batch running_old (create_workload_for_deployment 9 batch running_old).1 room []
create_ok_example = create_ok 9 batch running_old running_old room chosen [] no_secrets

abbrev secretive : Deployment ℤ
secretive =
    deployment "b" (spec 0 (record { secret_name = "tls"; mount_path = "" } ∷ []) (rollout 1 0))

chosen_for_secretive : place 9 secretive running_old ≡ (ok room, running_old)
unfolding place select_node slice_stable values schedulable sub64 wrap64 ◌-ℤ◌
chosen_for_secretive = refl

no_such_secret : (resolve_secret_files_for_deployment secretive running_old).0 ≡ err not_found
unfolding resolve_secret_files_for_deployment is_blank lookup
no_such_secret = refl

roll_lem_example :
    ((roll 9 web running_old).0 ≡ ok tt)
    × IsKeyed (roll 9 web running_old).1.workloads
    × (live 9 web (roll 9 web running_old).1 ≤ max (live 9 web running_old) (2 + 0))
roll_lem_example =
    roll_lem 9 web running_old 2 0 0 20 web-IsInRange running_old-IsKeyed (omega (arith, two_live))

abbrev stored_old : Orchestrator ℤ
stored_old = record running_old { deployments = ("d", web) ∷ [] }

web_stored : lookup "d" stored_old.deployments ≡ some web
unfolding lookup
web_stored = refl

web_early : deadline_exceeded 9 (prepared web) ≡ false
unfolding deadline_exceeded normalize_rollout_spec
web_early = refl

prepared-IsInRange : IsInRange (prepared web).spec 2 0 0 20
unfolding normalize_rollout_spec ◌*ℤ◌
prepared-IsInRange = web-IsInRange

live-prepared : live 9 (prepared web) stored_old ≡ 2
unfolding values
live-prepared = refl

reconcile_deployment_lem_example :
    ((reconcile_deployment 9 "d" stored_old).0 ≡ ok tt)
    × ((d : Deployment ℤ) × (lookup "d" (reconcile_deployment 9 "d" stored_old).1.deployments
          ≡ some d)
        × Ends 9 (prepared web) 2 stored_old (reconcile_deployment 9 "d" stored_old).1 d)
reconcile_deployment_lem_example =
    reconcile_deployment_lem 9 stored_old "d" web 2 0 0 20 web_stored web_early prepared-IsInRange
      running_old-IsKeyed (omega (arith, live-prepared))
