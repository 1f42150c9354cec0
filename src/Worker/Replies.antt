-- ===== src/Worker/Replies.antt =====
-- The agent answers each assignment that it polls with one report.
use mathlib.Core.List.{append-nil, append_assoc}
use distributed_container_or.Base.{
  ℕ, ◌+◌, ◌≡◌, refl, sym, ap, ◌∙◌, ◌⊎◌, inl, inr, String, List, [], ◌∷◌, ◌++◌, ℤ, length, arith, ok,
  Result-cases, pos_part,
}
use distributed_container_or.Model.Cluster.{WorkloadStatus, Assignment, Action}
use distributed_container_or.Worker.Interfaces.{AssignmentClient, Runtime, Host}
use distributed_container_or.Worker.{
  Runner, report, cleanup_secret_files, materialize_secret_files, run_with_backoff, process_delete,
  run_created, process_create, process_as, process_all, process_assignments,
}
use distributed_container_or.Worker.Silence.{IsLog, cleanup-keeps, retry-keeps, materialize-keeps}

-- The statuses that answer an action.
pub data IsReply : Action → WorkloadStatus → Type 0 where
  runs : IsReply Action.create WorkloadStatus.running
  runs_by_default : IsReply Action.unset WorkloadStatus.running
  ended : IsReply Action.delete WorkloadStatus.terminated
  create_failed : IsReply Action.create WorkloadStatus.failed
  default_failed : IsReply Action.unset WorkloadStatus.failed
  delete_failed : IsReply Action.delete WorkloadStatus.failed

-- One report for each assignment, in their order; none for an action that is not known.
pub data Replies : List Assignment → List (String × WorkloadStatus) → Type 0 where
  all_answered : Replies [] []
  answered :
      {a : Assignment} {batch : List Assignment} {s : WorkloadStatus}
      {reports : List (String × WorkloadStatus)}
      → IsReply a.action s
      → Replies batch reports
      → Replies (a ∷ batch) ((a.workload_id, s) ∷ reports)
  passed_over :
      {a : Assignment} {batch : List Assignment} {reports : List (String × WorkloadStatus)}
      (name : String)
      → a.action ≡ Action.other name
      → Replies batch reports
      → Replies (a ∷ batch) reports

module _ {F W : Type 0} (client : AssignmentClient F W) (runtime : Runtime W) (host : Host W)
    (reports : W → List (String × WorkloadStatus)) where
  module _ (log : IsLog client runtime host reports) where
    -- The step adds one report, of a status that answers the action.
    abbrev Adds : Action → String → W → W → Type 0
    Adds action id w w' =
        (s : WorkloadStatus) × IsReply action s × (reports w' ≡ reports w ++ (id, s) ∷ [])

    adds :
        (action : Action) (id container_id : String) (s : WorkloadStatus) (w w' : W)
        → IsReply action s
        → reports w' ≡ reports w
        → Adds action id w (report client runtime host id s container_id w')
    adds action id c s w w' reply same =
        (s, reply, log.reported id s c w' ∙ ap (λ rs. rs ++ (id, s) ∷ []) same)

    delete-Adds :
        (a : Assignment) (r : Runner) (w : W)
        → Adds Action.delete a.workload_id w (process_delete client runtime host a (r, w)).1
    unfolding process_delete
    delete-Adds a r w =
        let clean = (cleanup_secret_files client runtime host a.workload_id (r, w)).1 in
        let stop = runtime.stop_workload a.workload_id a.container_id clean in
        let kept =
          log.stopped a.workload_id a.container_id clean
          ∙ cleanup-keeps client runtime host reports log a.workload_id r w in
        elim (Result-cases stop.0) [
          | inl (x, stopped) ↦
              rw (stopped, process_delete)
                (adds Action.delete a.workload_id "" WorkloadStatus.terminated w stop.1 ended kept)
          | inr (x, failed) ↦
              rw (failed, process_delete)
                (adds Action.delete a.workload_id "" WorkloadStatus.failed w stop.1 delete_failed
                  kept)
        ]

    run_created-Adds :
        (action : Action) (a : Assignment) (r : Runner) (w w0 : W)
        → IsReply action WorkloadStatus.running
        → IsReply action WorkloadStatus.failed
        → reports w ≡ reports w0
        → Adds action a.workload_id w0 (run_created client runtime host a (r, w)).1
    unfolding run_created run_with_backoff
    run_created-Adds action a r w w0 good bad same =
        let tried = run_with_backoff client runtime host r a w in
        let kept =
          retry-keeps client runtime host reports log (pos_part r.restart_max_retries) 0
            r.restart_backoff a w
          ∙ same in
        elim (Result-cases tried.0) [
          | inl (c, ran) ↦
              rw (ran, run_created)
                (adds action a.workload_id c WorkloadStatus.running w0 tried.1 good kept)
          | inr (x, failed) ↦
              let clean = (cleanup_secret_files client runtime host a.workload_id (r, tried.1)).1 in
              rw (failed, run_created)
                (adds action a.workload_id "" WorkloadStatus.failed w0 clean bad
                  (cleanup-keeps client runtime host reports log a.workload_id r tried.1 ∙ kept))
        ]

    create-Adds :
        (action : Action) (a : Assignment) (r : Runner) (w : W)
        → IsReply action WorkloadStatus.running
        → IsReply action WorkloadStatus.failed
        → Adds action a.workload_id w (process_create client runtime host a (r, w)).1
    unfolding process_create
    create-Adds action a r w good bad =
        let put =
          materialize_secret_files client runtime host a.workload_id a.secret_files (r, w) in
        let kept =
          materialize-keeps client runtime host reports log a.workload_id a.secret_files r w in
        elim (Result-cases put.0) [
          | inl (x, made) ↦
              rw (made, process_create) (run_created-Adds action a put.1.0 put.1.1 w good bad kept)
          | inr (x, failed) ↦
              rw (failed, process_create)
                (adds action a.workload_id "" WorkloadStatus.failed w put.1.1 bad kept)
        ]

    -- What a batch adds: the reports that answer it.
    abbrev pub Answered : List Assignment → W → W → Type 0
    Answered batch w w' =
        (rs : List (String × WorkloadStatus)) × Replies batch rs × (reports w' ≡ reports w ++ rs)

    -- One step and those after it.
    Answered-cons :
        (a : Assignment) (batch : List Assignment) (w w1 w2 : W)
        → Adds a.action a.workload_id w w1
        → Answered batch w1 w2
        → Answered (a ∷ batch) w w2
    Answered-cons a batch w w1 w2 (s, reply, one) (rs, rest, more) = (
      (a.workload_id, s) ∷ rs,
      answered reply rest,
      more ∙ ap (λ l. l ++ rs) one ∙ append_assoc (reports w) ((a.workload_id, s) ∷ []) rs,
    )

    process-Adds :
        (action : Action) (a : Assignment) (r : Runner) (w : W)
        → (Adds action a.workload_id w (process_as client runtime host action a (r, w)).1)
          ⊎ ((name : String) × (action ≡ Action.other name)
              × ((process_as client runtime host action a (r, w)).1 ≡ w))
    unfolding process_as
    process-Adds Action.create a r w = inl (create-Adds Action.create a r w runs create_failed)
    process-Adds Action.delete a r w = inl (delete-Adds a r w)
    process-Adds Action.unset a r w =
        inl (create-Adds Action.unset a r w runs_by_default default_failed)
    process-Adds (Action.other name) a r w = inr (name, refl, refl)

    process_all-Answered :
        (batch : List Assignment) (n : ℕ) (r : Runner) (w : W)
        → ((process_all client runtime host batch n (r, w)).0 ≡ n + length batch)
          × Answered batch w (process_all client runtime host batch n (r, w)).1.1
    unfolding process_all
    process_all-Answered [] n r w = (omega arith, ([], all_answered, sym (append-nil (reports w))))
    process_all-Answered (a ∷ batch) n r w =
        let next = process_as client runtime host a.action a (r, w) in
        let (count, rest) = process_all-Answered batch (n + 1) next.0 next.1 in
        let w' = (process_all client runtime host batch (n + 1) next).1.1 in
        (
          omega (arith, count),
          elim (process-Adds a.action a r w) [
            | inl adds_one ↦ Answered-cons a batch w next.1 w' adds_one rest
            | inr (name, unknown, same) ↦
                let (rs, replies, more) = rest in
                (rs, passed_over name unknown replies, more ∙ ap (λ v. reports v ++ rs) same)
          ],
        )

    -- Where a poll delivers a batch, the agent processes all of it, whatever fails, and answers each
    -- assignment by one report, in their order: a creation as running or failed, a deletion as terminated
    -- or failed, and an unknown action not at all. The world keeps the reports that the client delivers.
    pub process_assignments_lem :
        (limit : ℤ) (r : Runner) (w : W) (batch : List Assignment)
        → (client.poll_assignments r.node_id limit w).0 ≡ ok batch
        → ((process_assignments client runtime host limit (r, w)).0 ≡ ok (length batch))
          × Answered batch w (process_assignments client runtime host limit (r, w)).1.1
    unfolding process_assignments
    process_assignments_lem limit r w batch polled =
        let w1 = (client.poll_assignments r.node_id limit w).1 in
        let (count, (rs, replies, more)) = process_all-Answered batch 0 r w1 in
        rw (polled, process_assignments)
          (
            ap (λ n. ok n) (omega (arith, count)),
            (rs, replies, more ∙ ap (λ l. l ++ rs) (log.polled r.node_id limit w)),
          )
