-- ===== src/Samples/Workers.antt =====
-- The theorems on the agent of a node at concrete worlds.
use Prim.Native.String.{◌++◌ as append}
use distributed_container_or.Base.{
  ◌≡◌, refl, String, false, List, [], ◌∷◌, ◌++◌, ℤ, pos, str_eq, some, none, ok, err, message,
  length, if◌then◌else◌,
}
use distributed_container_or.Model.Cluster.{Workload, WorkloadStatus, Assignment, Action}
use distributed_container_or.Store.Table.{lookup}
use distributed_container_or.Store.State.{Orchestrator}
use distributed_container_or.Worker.Interfaces.{AssignmentClient, Runtime, Host}
use distributed_container_or.Worker.{
  Runner, container_of, new_runner, process_assignments, reconcile_runtime,
}
use distributed_container_or.Worker.Silence.{IsLog}
use distributed_container_or.Worker.Replies.{Answered, process_assignments_lem}
use distributed_container_or.Worker.Joint.{
  Overtaken, direct_client, beside_runtime, beside_host, reconcile_runtime_fails,
}
use distributed_container_or.Samples.{hundredths_float, workload, empty}

-- The reports so far, and the assignments that wait.
abbrev Desk : Type 0
Desk = List (String × WorkloadStatus) × List Assignment

abbrev desk_client : AssignmentClient ℤ Desk
desk_client = record {
  register_node = λ n w. (ok tt, w);
  heartbeat = λ id used w. (ok tt, w);
  poll_assignments = λ id limit w. (ok w.1, (w.0, []));
  list_node_workloads = λ id w. (ok [], w);
  report_workload_status = λ id s c w. (ok tt, (w.0 ++ (id, s) ∷ [], w.1));
}

-- An image that does not start, and one that does.
abbrev picky_runtime : {W : Type 0} → Runtime W
picky_runtime = record {
  run_workload = λ id image secret w.
      (if str_eq image "broken" then err (message "no such image") else ok (append "c-" id), w);
  stop_workload = λ id c w. (ok tt, w);
  list_managed_workloads = λ w. (ok (("w9", "c-w9") ∷ []), w);
}

abbrev plain_host : {W : Type 0} → Host W
plain_host = record {
  secret_dir = append "/tmp/orch-secrets/";
  make_dir = λ d w. (ok tt, w);
  write_file = λ p t w. (ok tt, w);
  remove_file = λ p w. w;
  wait = λ d w. (false, w);
  range_keys = λ ids. ids;
}

desk-IsLog : IsLog desk_client picky_runtime plain_host (λ w. w.0)
desk-IsLog = record {
  reported = λ id s c w. refl;
  polled = λ id limit w. refl;
  ran = λ id image secret w. refl;
  stopped = λ id c w. refl;
  made = λ d w. refl;
  wrote = λ p t w. refl;
  removed = λ p w. refl;
  waited = λ d w. refl;
}

abbrev task : Action → String → String → Assignment
task action id image = record {
  action = action;
  id = "a-1";
  node_id = "n1";
  workload_id = id;
  image = image;
  image_pull_secret = "";
  container_id = "";
  secret_files = [];
  volume_mounts = [];
  resources = record { milli_cpu = pos 100; memory_mb = pos 64 };
}

abbrev batch : List Assignment
batch =
    task Action.create "w1" "broken"
    ∷ task Action.unset "w2" "web"
    ∷ task Action.delete "w3" ""
    ∷ task (Action.other "pause") "w4" ""
    ∷ []

abbrev agent : Runner
agent = new_runner "n1" (pos 2) (pos 10)

process_assignments_lem_example :
    ((process_assignments desk_client picky_runtime plain_host (pos 5) (agent, ([], batch))).0
      ≡ ok (length batch))
    × Answered desk_client picky_runtime plain_host
        (λ w. w.0)
        desk-IsLog
        batch
        ([], batch)
        (process_assignments desk_client picky_runtime plain_host (pos 5) (agent, ([], batch))).1.1
process_assignments_lem_example =
    process_assignments_lem desk_client picky_runtime plain_host (λ w. w.0) desk-IsLog (pos 5) agent
      ([], batch) batch refl

-- A pending workload, whose assignment waits, and nothing that runs for it.
abbrev w1 : Workload
w1 = record (workload "w1" "d" 0 1 3) { status = WorkloadStatus.pending }

abbrev queued : Orchestrator ℤ
queued = record empty {
  workloads = ("w1", w1) ∷ [];
  assignments = ("n1:a-1", task Action.create "w1" "web") ∷ [];
}

abbrev node_agent : Runner
node_agent = new_runner w1.node_id (pos 2) (pos 10)

w1_stored : lookup "w1" queued.workloads ≡ some w1
unfolding lookup
w1_stored = refl

no_container : container_of "w1" (("w9", "c-w9") ∷ []) ≡ none
unfolding container_of
no_container = refl

abbrev no_containers : List (String × String)
no_containers = []

reconcile_runtime_fails_example : Overtaken 9 "w1" queued (
    reconcile_runtime
      (direct_client 9)
      (beside_runtime picky_runtime)
      (beside_host plain_host)
      (node_agent, (queued, no_containers)))
unfolding new_runner
reconcile_runtime_fails_example =
    reconcile_runtime_fails 9 picky_runtime plain_host node_agent queued no_containers
      (("w9", "c-w9") ∷ []) w1 (λ ids id m. m) w1_stored refl refl no_container
