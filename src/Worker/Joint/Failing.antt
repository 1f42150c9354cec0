-- ===== src/Worker/Joint/Failing.antt =====
-- A report of a failure (ReportWorkloadStatus) as a change of the store alone.
use distributed_container_or.Base.{
  ◌≡◌, refl, sym, ◌∙◌, subst, inl, inr, String, pos, add64, arith, none, some, Option-cases, str_eq,
  eq_iff, if◌then◌else◌, Bool-cases,
}
use distributed_container_or.Model.Floats.{Time}
use distributed_container_or.Model.Cluster.{Workload, WorkloadStatus}
use distributed_container_or.Store.Table.{lookup, lookup-insert}
use distributed_container_or.Store.State.{Orchestrator}
use distributed_container_or.Reports.{report_workload_status}

-- A workload as a report of its failure leaves it.
abbrev marked : Time → Workload → Workload
marked now w = record w {
  status = WorkloadStatus.failed;
  container_id = "";
  restart_count = add64 w.restart_count (pos 1);
  updated_at = now;
}

module _ {F : Type 0} (now : Time) where
  abbrev pub fail_on : String → Orchestrator F → Orchestrator F
  fail_on id o = (report_workload_status now id WorkloadStatus.failed "" o).1

  -- The store holds a workload under its identifier.
  abbrev pub HoldsOwn : String → Orchestrator F → Type 0
  HoldsOwn id o = (w : Workload) × (lookup id o.workloads ≡ some w) × (w.id ≡ id)

  abbrev pub HasFailed : String → Orchestrator F → Type 0
  HasFailed id o =
      (w : Workload) × (lookup id o.workloads ≡ some w) × (w.status ≡ WorkloadStatus.failed)

  pub fail_on-assignments :
      (id : String) (o : Orchestrator F) → (fail_on id o).assignments ≡ o.assignments
  unfolding report_workload_status
  fail_on-assignments id o = elim (Option-cases (lookup id o.workloads)) [
    | inl e ↦ ground (arith, e)
    | inr (w, e) ↦ ground (arith, e)
  ]

  fail_on-lookup :
      (id j : String) (o : Orchestrator F) (w : Workload)
      → lookup id o.workloads ≡ some w
      → lookup j (fail_on id o).workloads
        ≡ (if str_eq w.id j then some (marked now w) else lookup j o.workloads)
  unfolding report_workload_status
  fail_on-lookup id j o w e = ground (arith, e, lookup-insert w.id j (marked now w) o.workloads)

  fail_on_unknown :
      (id : String) (o : Orchestrator F) → lookup id o.workloads ≡ none → fail_on id o ≡ o
  unfolding report_workload_status
  fail_on_unknown id o e = ground (arith, e)

  pub fail_on-HoldsOwn :
      (id j : String) (o : Orchestrator F) → HoldsOwn j o → HoldsOwn j (fail_on id o)
  fail_on-HoldsOwn id j o (v, held, own) = elim (Option-cases (lookup id o.workloads)) [
    | inl e ↦ subst (HoldsOwn j) (sym (fail_on_unknown id o e)) (v, held, own)
    | inr (w, e) ↦ elim (Bool-cases (str_eq w.id j)) [
      | inl same ↦ (marked now w, fail_on-lookup id j o w e ∙ rw same refl, (eq_iff w.id j).0 same)
      | inr other ↦ (v, fail_on-lookup id j o w e ∙ rw other held, own)
    ]
  ]

  pub fail_on-HasFailed :
      (id j : String) (o : Orchestrator F) → HasFailed j o → HasFailed j (fail_on id o)
  fail_on-HasFailed id j o (v, held, failed) = elim (Option-cases (lookup id o.workloads)) [
    | inl e ↦ subst (HasFailed j) (sym (fail_on_unknown id o e)) (v, held, failed)
    | inr (w, e) ↦ elim (Bool-cases (str_eq w.id j)) [
      | inl same ↦ (marked now w, fail_on-lookup id j o w e ∙ rw same refl, refl)
      | inr other ↦ (v, fail_on-lookup id j o w e ∙ rw other held, failed)
    ]
  ]

  pub fail_on_own : (id : String) (o : Orchestrator F) → HoldsOwn id o → HasFailed id (fail_on id o)
  fail_on_own id o (w, held, own) =
      (marked now w, fail_on-lookup id id o w held ∙ rw ((eq_iff w.id id).1 own) refl, refl)
