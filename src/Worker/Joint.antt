-- ===== src/Worker/Joint.antt =====
-- The agent together with the server that it calls: the runner over the orchestrator's handlers, the
-- transport between them taken as delivering each call.
pub mod Failing
use distributed_container_or.Base.{
  ◌≡◌, refl, sym, ap, ◌∙◌, subst, inl, inr, String, pos, add64, true, ◌&&◌, List, [], ◌∷◌, map,
  Elem, Elem-map, arith, none, some, Option-cases, Result, ok, str_eq, eq_iff, keep, keep-Elem,
  if◌then◌else◌, Bool-cases,
}
use distributed_container_or.Model.Floats.{Float, Time}
use distributed_container_or.Model.Cluster.{Workload, WorkloadStatus}
use distributed_container_or.Store.Table.{lookup, lookup-Elem, lookup-insert, values}
use distributed_container_or.Store.State.{Orchestrator, M}
use distributed_container_or.Nodes.{heartbeat_node}
use distributed_container_or.Rebalance.{register_node}
use distributed_container_or.Reports.{
  poll_assignments, report_workload_status, list_node_workloads, is_expected,
}
use distributed_container_or.Worker.Interfaces.{AssignmentClient, Runtime, Host}
use distributed_container_or.Worker.{
  Runner, container_of, has_workload, report_missing, stop_extra, reconcile_runtime,
}
use distributed_container_or.Worker.Joint.Failing.{
  fail_on, HoldsOwn, HasFailed, fail_on-assignments, fail_on-HoldsOwn, fail_on-HasFailed,
  fail_on_own,
}

abbrev pub on_server :
    {F C A : Type 0} → M F A → Orchestrator F × C → Result A × (Orchestrator F × C)
on_server m (o, c) = ((m o).0, ((m o).1, c))

abbrev pub on_node :
    {F C A : Type 0} → (C → Result A × C) → Orchestrator F × C → Result A × (Orchestrator F × C)
on_node m (o, c) = ((m c).0, (o, (m c).1))

-- The server's handlers as the agent's client.
unfoldable pub direct_client :
    {F C : Type 0} ⦃fl : Float F⦄ → Time → AssignmentClient F (Orchestrator F × C)
unfolding register_node heartbeat_node poll_assignments list_node_workloads report_workload_status
direct_client now = record {
  register_node = λ node. on_server (register_node now node);
  heartbeat = λ id used. on_server (heartbeat_node now id used);
  poll_assignments = λ id limit. on_server (poll_assignments id limit);
  list_node_workloads = λ id. on_server (list_node_workloads id);
  report_workload_status = λ id status c. on_server (report_workload_status now id status c);
}

-- A runtime and a host that know nothing of the server.
unfoldable pub beside_runtime : {F C : Type 0} → Runtime C → Runtime (Orchestrator F × C)
beside_runtime r = record {
  run_workload = λ id image secret. on_node (r.run_workload id image secret);
  stop_workload = λ id c. on_node (r.stop_workload id c);
  list_managed_workloads = on_node r.list_managed_workloads;
}

unfoldable pub beside_host : {F C : Type 0} → Host C → Host (Orchestrator F × C)
beside_host h = record {
  secret_dir = h.secret_dir;
  make_dir = λ d. on_node (h.make_dir d);
  write_file = λ p t. on_node (h.write_file p t);
  remove_file = λ p s. (s.0, h.remove_file p s.1);
  wait = λ d s. ((h.wait d s.1).0, (s.0, (h.wait d s.1).1));
  range_keys = h.range_keys;
}

-- The call succeeded, the workload has failed, and the queue stands.
abbrev pub Overtaken :
    {F C : Type 0}
    → Time
    → String
    → Orchestrator F
    → Result {0} Unit × (Orchestrator F × C)
    → Type 0
Overtaken now id o (r, (o', c)) =
    (r ≡ ok tt) × HasFailed now id o' × (o'.assignments ≡ o.assignments)

module _ {F C : Type 0} ⦃fl : Float F⦄ (now : Time) (runtime : Runtime C) (host : Host C) where
  abbrev missing : List (String × String) → List String → Orchestrator F × C → Orchestrator F × C
  missing = report_missing (direct_client now) (beside_runtime runtime) (beside_host host)

  -- The first loop leaves the queue as it was, and what has failed stays so.
  missing_keeps :
      (actual : List (String × String)) (ids : List String) (j : String) (s : Orchestrator F × C)
      → ((missing actual ids s).0.assignments ≡ s.0.assignments)
        × (HasFailed now j s.0 → HasFailed now j (missing actual ids s).0)
  unfolding report_missing direct_client
  missing_keeps actual [] j s = (refl, λ h. h)
  missing_keeps actual (id ∷ ids) j (o, c) = elim (Option-cases (container_of id actual)) [
    | inl gone ↦
        let rest = missing_keeps actual ids j (fail_on now id o, c) in
        rw (gone, report_missing)
          (rest.0 ∙ fail_on-assignments now id o, λ h. rest.1 (fail_on-HasFailed now id j o h))
    | inr (d, there) ↦ rw (there, report_missing) (missing_keeps actual ids j (o, c))
  ]

  missing_fails :
      (actual : List (String × String)) (ids : List String) (j : String) (s : Orchestrator F × C)
      → Elem j ids
      → container_of j actual ≡ none
      → HoldsOwn now j s.0
      → HasFailed now j (missing actual ids s).0
  unfolding report_missing direct_client
  missing_fails actual [] j s m gone own = elim m [ ]
  missing_fails actual (id ∷ ids) j (o, c) (inl same) gone own =
      rw (subst (λ k. container_of k actual ≡ none) same gone, report_missing)
        ((missing_keeps actual ids j (fail_on now id o, c)).1
          (subst (λ k. HasFailed now j (fail_on now k o)) same (fail_on_own now j o own)))
  missing_fails actual (id ∷ ids) j (o, c) (inr later) gone own =
      elim (Option-cases (container_of id actual)) [
        | inl e ↦
            rw (e, report_missing)
              (missing_fails actual ids j (fail_on now id o, c) later gone
                (fail_on-HoldsOwn now id j o own))
        | inr (d, e) ↦ rw (e, report_missing) (missing_fails actual ids j (o, c) later gone own)
      ]

  abbrev stop_all :
      List Workload → List (String × String) → List String → Orchestrator F × C → Orchestrator F × C
  stop_all = stop_extra (direct_client now) (beside_runtime runtime) (beside_host host)

  stop_all-server :
      (desired : List Workload) (actual : List (String × String)) (ids : List String)
      (s : Orchestrator F × C)
      → (stop_all desired actual ids s).0 ≡ s.0
  unfolding stop_extra beside_runtime
  stop_all-server desired actual [] s = refl
  stop_all-server desired actual (id ∷ ids) (o, c) = elim (Option-cases (container_of id actual)) [
    | inl e ↦ rw (e, stop_extra) (stop_all-server desired actual ids (o, c))
    | inr (d, e) ↦ elim (Bool-cases (has_workload id desired)) [
      | inl wanted ↦ rw (e, wanted, stop_extra) (stop_all-server desired actual ids (o, c))
      | inr extra ↦
          rw (e, extra, stop_extra)
            (stop_all-server desired actual ids (o, (runtime.stop_workload id d c).1))
    ]
  ]

  abbrev expected_on : String → Orchestrator F → List Workload
  expected_on node_id o =
      keep (λ v. str_eq v.node_id node_id && is_expected v.status) (values o.workloads)

  reconcile_steps :
      (r : Runner) (o : Orchestrator F) (c : C) (actual : List (String × String))
      → (runtime.list_managed_workloads c).0 ≡ ok actual
      → reconcile_runtime
          (direct_client now)
          (beside_runtime runtime)
          (beside_host host)
          (r, (o, c))
        ≡ (
          ok tt,
          stop_all (expected_on r.node_id o) actual (host.range_keys (map (λ k. k.0) actual)) (
              missing actual
                (host.range_keys (map (λ v. v.id) (expected_on r.node_id o)))
                (o, (runtime.list_managed_workloads c).1)),
        )
  unfolding reconcile_runtime direct_client beside_runtime beside_host list_node_workloads
  reconcile_steps r o c actual listed = rw (listed, reconcile_runtime) refl

  -- Where a workload that is stored under its identifier should run on the node, and the runtime lists
  -- its containers and has none for it, a reconciliation by the node's agent succeeds and leaves the
  -- workload stored as failed, also where it is pending because its assignment still waits in the
  -- queue: the queue stands as it was. A map is gone through in some order that misses no key.
  pub reconcile_runtime_fails :
      (r : Runner) (o : Orchestrator F) (c : C) (actual : List (String × String)) (w : Workload)
      → ((ids : List String) (id : String) → Elem id ids → Elem id (host.range_keys ids))
      → lookup w.id o.workloads ≡ some w
      → str_eq w.node_id r.node_id && is_expected w.status ≡ true
      → (runtime.list_managed_workloads c).0 ≡ ok actual
      → container_of w.id actual ≡ none
      → Overtaken now w.id o (
          reconcile_runtime
            (direct_client now)
            (beside_runtime runtime)
            (beside_host host)
            (r, (o, c)))
  unfolding reconcile_runtime
  reconcile_runtime_fails r o c actual w whole held expected listed gone =
      let ids = host.range_keys (map (λ v. v.id) (expected_on r.node_id o)) in
      let stop = host.range_keys (map (λ k. k.0) actual) in
      let listed_first =
        keep-Elem (λ v. str_eq v.node_id r.node_id && is_expected v.status) w (values o.workloads)
          (lookup-Elem w.id w o.workloads held) expected in
      let there =
        whole _ w.id (Elem-map (λ (v : Workload). v.id) w (expected_on r.node_id o) listed_first) in
      let server =
        stop_all-server (expected_on r.node_id o) actual stop
          (missing actual ids (o, (runtime.list_managed_workloads c).1)) in
      rw (reconcile_steps r o c actual listed) (
        refl,
        subst (HasFailed now w.id) (sym server) (
            missing_fails actual ids w.id (o, (runtime.list_managed_workloads c).1) there gone
              (w, held, refl)),
        ap (λ (x : Orchestrator F). x.assignments) server
            ∙ (missing_keeps actual ids w.id (o, (runtime.list_managed_workloads c).1)).0,
      )
