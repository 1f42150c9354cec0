-- ===== src/Worker.antt =====
-- internal/worker/runner.go: the agent of a node. The server, the container runtime and the host are
-- reached through interfaces; `W` is the world that they change.
pub mod Interfaces
pub mod Paths
pub mod Silence
pub mod Replies
pub mod Joint
use Prim.Native.String.{◌++◌ as append}
use distributed_container_or.Base.{
  ℕ, zero, suc, ◌+◌, ◌^◌, ◌==◌, String, Bool, true, false, List, [], ◌∷◌, ℤ, pos, add64, mul64,
  wrap64, leb_ℤ, pos_part, str_eq, if◌then◌else◌, map, Option, none, some, Result, ok, err, Error,
  message,
}
use distributed_container_or.Model.Cluster.{
  Resource, Node, Workload, WorkloadStatus, Assignment, Action, SecretFile,
}
use distributed_container_or.Balancer.{update}
use distributed_container_or.Placement.{release_from}
use distributed_container_or.Worker.Interfaces.{AssignmentClient, Runtime, Host}
use distributed_container_or.Worker.Paths.{secret_name}

pub record Runner : Type 0 where
  pub node_id : String
  pub used : Resource
  pub restart_max_retries : ℤ
  pub restart_backoff : ℤ
  -- The files of each workload; none where the map has no entry.
  pub secret_files : String → List String

unfoldable pub new_runner : String → ℤ → ℤ → Runner
new_runner node_id retries backoff = record {
  node_id = node_id;
  used = record { milli_cpu = pos 0; memory_mb = pos 0 };
  restart_max_retries = if leb_ℤ retries (pos 0) then pos 3 else retries;
  restart_backoff = if leb_ℤ backoff (pos 0) then pos 250_000_000 else backoff;
  secret_files = λ _. [];
}

abbrev pub charge_to : Resource → Resource → Resource
charge_to used r = record {
  milli_cpu = add64 used.milli_cpu r.milli_cpu;
  memory_mb = add64 used.memory_mb r.memory_mb;
}

-- The container of a workload, in a map from workloads to containers.
unfoldable pub container_of : String → List (String × String) → Option String
container_of id [] = none
container_of id ((k, c) ∷ m) = if str_eq k id then some c else container_of id m

unfoldable pub has_workload : String → List Workload → Bool
has_workload id [] = false
has_workload id (w ∷ ws) = if str_eq w.id id then true else has_workload id ws

-- `time.Duration(1 << attempt)` times the backoff.
abbrev pub backoff_after : ℤ → ℕ → ℤ
backoff_after backoff attempt = mul64 backoff (wrap64 (pos (2 ^ attempt)))

module _ {F W : Type 0} (client : AssignmentClient F W) (runtime : Runtime W) (host : Host W) where
  -- `_ = r.client.ReportWorkloadStatus(…)`.
  abbrev pub report : String → WorkloadStatus → String → W → W
  report id status container_id w = (client.report_workload_status id status container_id w).1

  abbrev pub register : Node F → W → Result {0} Unit × W
  register node w = client.register_node node w

  abbrev pub heartbeat_runner : Runner × W → Result {0} Unit × W
  heartbeat_runner (r, w) = client.heartbeat r.node_id r.used w

  unfoldable pub remove_all : List String → W → W
  remove_all [] w = w
  remove_all (p ∷ ps) w = remove_all ps (host.remove_file p w)

  -- `filepath.Dir(paths[0])` is the directory that the files were put into.
  unfoldable pub cleanup_secret_files : String → Runner × W → Runner × W
  unfolding remove_all
  cleanup_secret_files id (r, w) =
      let paths = r.secret_files id in
      let w' = remove_all paths w in
      let w'' : W = elim paths [ [] ↦ w' | _ ∷ _ ↦ host.remove_file (host.secret_dir id) w' ] in
      (record r { secret_files = update r.secret_files id [] }, w'')

  -- The files that were written.
  unfoldable pub write_files : String → List SecretFile → W → Result (List String) × W
  unfolding secret_name
  write_files dir [] w = (ok [], w)
  write_files dir (f ∷ fs) w = elim (secret_name f.path) [
    | none ↦ write_files dir fs w
    | some name ↦
        let target = append dir (append "/" name) in
        let (r, w') = host.write_file target f.content w in
        let rest = write_files dir fs w' in
        elim r [
          | err e ↦ (err e, w')
          | ok _ ↦ elim rest.0 [
            | err e ↦ (err e, rest.1)
            | ok created ↦ (ok (target ∷ created), rest.1)
          ]
        ]
  ]

  unfoldable pub materialize_secret_files :
      String → List SecretFile → Runner × W → Result {0} Unit × (Runner × W)
  unfolding write_files
  materialize_secret_files id [] (r, w) = (ok tt, (r, w))
  materialize_secret_files id (f ∷ fs) (r, w) =
      let dir = host.secret_dir id in
      let (made, w1) = host.make_dir dir w in
      elim made [
        | err e ↦ (err e, (r, w1))
        | ok _ ↦
            let (written, w2) = write_files dir (f ∷ fs) w1 in
            elim written [
              | err e ↦ (err e, (r, w2))
              | ok created ↦
                  (ok tt, (record r { secret_files = update r.secret_files id created }, w2))
            ]
      ]

  -- The attempts that are left, after those made.
  unfoldable pub retry : ℕ → ℕ → ℤ → Assignment → W → Result String × W
  retry zero attempt backoff a w = (ok "", w)
  retry (suc left) attempt backoff a w =
      let (ran, w1) = runtime.run_workload a.workload_id a.image a.image_pull_secret w in
      let (ended, w2) = host.wait (backoff_after backoff attempt) w1 in
      let rest = retry left (attempt + 1) backoff a w2 in
      elim ran [
        | ok container_id ↦ (ok container_id, w1)
        | err e ↦
            if left == 0
            then (err e, w1)
            else if ended
            then (err (message "context canceled"), w2)
            else rest
      ]

  unfoldable pub run_with_backoff : Runner → Assignment → W → Result String × W
  unfolding retry
  run_with_backoff r a w = retry (pos_part r.restart_max_retries) 0 r.restart_backoff a w

  unfoldable pub process_delete : Assignment → Runner × W → Runner × W
  unfolding cleanup_secret_files
  process_delete a s =
      let (r, w1) = cleanup_secret_files a.workload_id s in
      let (stopped, w2) = runtime.stop_workload a.workload_id a.container_id w1 in
      elim stopped [
        | err _ ↦ (r, report a.workload_id WorkloadStatus.failed "" w2)
        | ok _ ↦ (
          record r { used = release_from r.used a.resources },
          report a.workload_id WorkloadStatus.terminated "" w2,
        )
      ]

  unfoldable pub run_created : Assignment → Runner × W → Runner × W
  unfolding run_with_backoff cleanup_secret_files
  run_created a (r, w) =
      let (ran, w') = run_with_backoff r a w in
      elim ran [
        | err _ ↦
            let (r1, w1) = cleanup_secret_files a.workload_id (r, w') in
            (r1, report a.workload_id WorkloadStatus.failed "" w1)
        | ok container_id ↦ (
          record r { used = charge_to r.used a.resources },
          report a.workload_id WorkloadStatus.running container_id w',
        )
      ]

  unfoldable pub process_create : Assignment → Runner × W → Runner × W
  unfolding materialize_secret_files run_created
  process_create a s =
      let (made, (r, w)) = materialize_secret_files a.workload_id a.secret_files s in
      elim made [
        | err _ ↦ (r, report a.workload_id WorkloadStatus.failed "" w)
        | ok _ ↦ run_created a (r, w)
      ]

  unfoldable pub process_as : Action → Assignment → Runner × W → Runner × W
  unfolding process_delete process_create
  process_as Action.delete a s = process_delete a s
  process_as Action.create a s = process_create a s
  process_as Action.unset a s = process_create a s
  process_as (Action.other _) a s = s

  unfoldable pub process_all : List Assignment → ℕ → Runner × W → ℕ × (Runner × W)
  unfolding process_as
  process_all [] processed s = (processed, s)
  process_all (a ∷ batch) processed s = process_all batch (processed + 1) (process_as a.action a s)

  unfoldable pub process_assignments : ℤ → Runner × W → Result ℕ × (Runner × W)
  unfolding process_all
  process_assignments limit (r, w) =
      let (polled, w') = client.poll_assignments r.node_id limit w in
      elim polled [
        | err e ↦ (err e, (r, w'))
        | ok batch ↦ let (processed, s) = process_all batch 0 (r, w') in (ok processed, s)
      ]

  -- The first loop: what should run and has no container.
  unfoldable pub report_missing : List (String × String) → List String → W → W
  unfolding container_of
  report_missing actual [] w = w
  report_missing actual (id ∷ ids) w =
      let next : W = elim (container_of id actual) [
        | some _ ↦ w
        | none ↦ report id WorkloadStatus.failed "" w
      ] in
      report_missing actual ids next

  -- The second loop: what runs and should not.
  unfoldable pub stop_extra : List Workload → List (String × String) → List String → W → W
  unfolding has_workload container_of
  stop_extra desired actual [] w = w
  stop_extra desired actual (id ∷ ids) w =
      let next : W = elim (container_of id actual) [
        | none ↦ w
        | some container_id ↦
            if has_workload id desired then w else (runtime.stop_workload id container_id w).1
      ] in
      stop_extra desired actual ids next

  unfoldable pub reconcile_runtime : Runner × W → Result {0} Unit × W
  unfolding report_missing stop_extra
  reconcile_runtime (r, w) =
      let (listed, w1) = client.list_node_workloads r.node_id w in
      elim listed [
        | err e ↦ (err e, w1)
        | ok desired ↦
            let (managed, w2) = runtime.list_managed_workloads w1 in
            elim managed [
              | err e ↦ (err e, w2)
              | ok actual ↦
                  let w3 = report_missing actual (host.range_keys (map (λ v. v.id) desired)) w2 in
                  (ok tt, stop_extra desired actual (host.range_keys (map (λ c. c.0) actual)) w3)
            ]
      ]
