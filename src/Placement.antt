-- ===== src/Placement.antt =====
-- internal/service/orchestrator.go and features.go: placing a workload on a node, preempting one of
-- lower priority, and asking a node to delete one.
pub mod Preemption
pub mod Writes
pub mod Bookkeeping
use Prim.Native.Char.{Char, code}
use Prim.Native.String.{◌++◌ as append}
use distributed_container_or.Base.{
  ℕ, suc, ◌+◌, String, Bool, true, false, not, ◌&&◌, ◌||◌, List, [], ◌∷◌, ◌++◌, map, ℤ, pos, add64,
  sub64, ltb_ℤ, leb_ℤ, eqb_ℤ, ltb, ◌==◌, str_eq, str_lt, if◌then◌else◌, is_blank, trim_space,
  cut_prefix, find, keep, slice_stable, Option, none, some, Result, ok, err, Error,
  no_schedulable_node,
}
use distributed_container_or.Model.Floats.{Float, Time}
use distributed_container_or.Model.Cluster.{
  Resource, Labels, Node, Workload, WorkloadStatus, Assignment, Action, SecretFile, VolumeMount,
  is_ready,
}
use distributed_container_or.Model.Deploy.{
  Deployment, DeploymentSpec, SecretMountSpec, Message, text,
}
use distributed_container_or.Model.Storage.{EventLevel, Secret}
use distributed_container_or.Store.State.{
  Orchestrator, M, ◌>>=◌, ◌>>◌, pure, fail, read, done, outcome, ignore, for_each,
}
use distributed_container_or.Store.{
  list_nodes, list_workloads, upsert_node, upsert_workload, delete_workload, get_secret,
  enqueue_assignment, emit_event, fresh_id,
}
use distributed_container_or.Scheduler.{select_node}
use distributed_container_or.Rollout.{floor_zero}
use distributed_container_or.Secrets.{resolve_secret_files_for_deployment}

abbrev pub release_from : Resource → Resource → Resource
release_from used freed = record {
  milli_cpu = floor_zero (sub64 used.milli_cpu freed.milli_cpu);
  memory_mb = floor_zero (sub64 used.memory_mb freed.memory_mb);
}

abbrev pub delete_assignment : Workload → Assignment
delete_assignment w = record {
  action = Action.delete;
  id = "";
  node_id = w.node_id;
  workload_id = w.id;
  image = "";
  image_pull_secret = "";
  container_id = w.container_id;
  secret_files = [];
  volume_mounts = [];
  resources = w.resources;
}

-- The lowest priority first, then the newest.
abbrev pub preempt_first : Workload → Workload → Bool
preempt_first a b =
    if not (eqb_ℤ a.priority b.priority)
    then ltb_ℤ a.priority b.priority
    else ltb b.created_at a.created_at

module _ {F : Type 0} where
  -- Room on the node for the request once the victim is gone.
  unfoldable pub makes_room : Node F → Workload → Resource → Bool
  makes_room node victim req =
      let avail_cpu =
        add64 (sub64 node.allocatable.milli_cpu node.used.milli_cpu) victim.resources.milli_cpu in
      let avail_mem =
        add64 (sub64 node.allocatable.memory_mb node.used.memory_mb) victim.resources.memory_mb in
      not (ltb_ℤ avail_cpu req.milli_cpu || ltb_ℤ avail_mem req.memory_mb)

  -- The node of a victim, if it is ready and would have room.
  unfoldable pub host_of : List (Node F) → Resource → Workload → Option (Node F)
  unfolding makes_room
  host_of nodes req victim = elim (find (λ n. str_eq n.id victim.node_id) nodes) [
    | none ↦ none
    | some node ↦
        if not (is_ready node.status)
        then none
        else if makes_room node victim req
        then some node
        else none
  ]

  unfoldable pub evict : Time → Deployment F → Node F → Workload → M F Bool
  unfolding upsert_node delete_workload emit_event
  evict now dep node victim = do
    upsert_node now (record node { used = release_from node.used victim.resources })
    delete_workload victim.id
    ignore (
        emit_event now EventLevel.warn "scheduler" "PreemptedLowerPriorityWorkload"
          (text "Preempted lower priority workload to free resources") dep.id victim.id
          victim.node_id)
    pure true

  unfoldable pub preempt_one :
      Time → Deployment F → Resource → List (Node F) → List Workload → M F Bool
  unfolding evict host_of
  preempt_one now dep req nodes [] = pure false
  preempt_one now dep req nodes (victim ∷ rest) =
      let next = preempt_one now dep req nodes rest in
      elim (host_of nodes req victim) [ none ↦ next | some node ↦ evict now dep node victim ]

  abbrev pub is_candidate : Deployment F → Workload → Bool
  is_candidate dep w = ltb_ℤ w.priority dep.spec.priority && not (str_eq w.deployment_id dep.id)

  unfoldable pub try_preempt_for_priority : Time → Deployment F → Resource → M F Bool
  unfolding list_workloads list_nodes preempt_one
  try_preempt_for_priority now dep req = do
    workloads ← list_workloads
    nodes ← list_nodes
    preempt_one now dep req nodes (slice_stable preempt_first (keep (is_candidate dep) workloads))

  unfoldable pub enqueue_delete_for_workload : Time → Deployment F → Workload → M F Unit
  unfolding upsert_workload enqueue_assignment emit_event
  enqueue_delete_for_workload now dep victim = do
    let ending : Workload = record victim { status = WorkloadStatus.terminating }
    upsert_workload now ending
    enqueue_assignment (delete_assignment ending)
    ignore (
        emit_event now EventLevel.info "rollout" "OldRevisionScaledDown"
          (text "Scaled down old revision workload") dep.id victim.id victim.node_id)

module _ {F : Type 0} ⦃fl : Float F⦄ where
  unfoldable pub select_for : Deployment F → M F (Node F)
  unfolding list_nodes
  select_for dep = do
    nodes ← list_nodes
    planner ← read (λ o. o.scheduler)
    λ o. (select_node planner nodes dep.spec.resources dep.spec.labels dep.spec.tolerations, o)

  unfoldable pub place : Time → Deployment F → M F (Node F)
  unfolding select_for try_preempt_for_priority
  place now dep = do
    chosen ← outcome (select_for dep)
    elim chosen [
      | ok node ↦ pure node
      | err e ↦ do
        preempted ←
            (if ltb_ℤ (pos 0) dep.spec.priority
              then try_preempt_for_priority now dep dep.spec.resources
              else pure false)
        if preempted then select_for dep else fail e
    ]

  abbrev pub new_workload : Time → Deployment F → Node F → String → Workload
  new_workload now dep node id = record {
    id = id;
    deployment_id = dep.id;
    priority = dep.spec.priority;
    node_id = node.id;
    image = dep.spec.image;
    resources = dep.spec.resources;
    status = WorkloadStatus.pending;
    container_id = "";
    restart_count = pos 0;
    version = dep.current_revision;
    created_at = now;
    updated_at = now;
  }

  abbrev pub charged : Node F → Resource → Node F
  charged node r = record node {
    used = record {
      milli_cpu = add64 node.used.milli_cpu r.milli_cpu;
      memory_mb = add64 node.used.memory_mb r.memory_mb;
    };
  }

  abbrev pub create_assignment : Deployment F → Workload → List SecretFile → Assignment
  create_assignment dep w files = record {
    action = Action.create;
    id = "";
    node_id = w.node_id;
    workload_id = w.id;
    image = w.image;
    image_pull_secret = dep.spec.image_pull_secret;
    container_id = "";
    secret_files = files;
    volume_mounts =
        map
          (λ claim. record {
            claim_name = claim;
            mount_path = append "/mnt/pv/" claim;
            read_only = false;
          })
          dep.spec.volume_claims;
    resources = w.resources;
  }

  -- The node is announced and charged, and the workload is written.
  unfoldable pub reserve : Time → Deployment F → Node F → M F Workload
  unfolding upsert_workload upsert_node emit_event fresh_id
  reserve now dep node = do
    ignore (
        emit_event now EventLevel.info "scheduler" "NodeSelected"
          (text "Scheduler selected node for workload") dep.id "" node.id)
    id ← fresh_id
    let workload = new_workload now dep node id
    upsert_workload now workload
    upsert_node now (charged node dep.spec.resources)
    pure workload

  -- The agent of the node is told.
  unfoldable pub send : Time → Deployment F → Workload → M F Unit
  unfolding enqueue_assignment emit_event
  send now dep workload = do
    files ← resolve_secret_files_for_deployment dep
    enqueue_assignment (create_assignment dep workload files)
    ignore (
        emit_event now EventLevel.info "reconcile" "AssignmentEnqueued"
          (text "Workload assignment enqueued") dep.id workload.id workload.node_id)

  unfoldable pub create_workload_for_deployment : Time → Deployment F → M F Unit
  create_workload_for_deployment now dep = do
    node ← place now dep
    workload ← reserve now dep node
    send now dep workload
