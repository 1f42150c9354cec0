-- ===== src/Status/Creating.antt =====
-- How many active workloads the creations of a pass add.
use distributed_container_or.Base.{
  Result-cases, ℕ, zero, suc, ◌+◌, ◌≤◌, ◌≡◌, refl, inl, inr, String, List, [], ◌∷◌, arith, keep,
  count, slice_stable, Result, ap, ap₂, ◌∙◌, sym, subst, Option-cases,
}
use distributed_container_or.Model.Floats.{Float, Time}
use distributed_container_or.Model.Cluster.{Resource, Node, Workload}
use distributed_container_or.Model.Deploy.{Deployment}
use distributed_container_or.Store.Table.{
  insert, erase, values, IsKeyed, insert-IsKeyed, erase-IsKeyed,
}
use distributed_container_or.Store.Counting.{count-insert, count-erase}
use distributed_container_or.Store.State.{Orchestrator}
use distributed_container_or.Secrets.{resolve_secret_files_for_deployment}
use distributed_container_or.Placement.{
  place, reserve, send, select_for, evict, preempt_one, try_preempt_for_priority,
  create_workload_for_deployment, new_workload, host_of, preempt_first, is_candidate,
}
use distributed_container_or.Secrets.Reading.{resolve-state}
use distributed_container_or.Placement.Bookkeeping.{create_steps, create_failing, send_ok, send_err}
use distributed_container_or.Reconcile.{create_workloads}
use distributed_container_or.Reconcile.Totals.{live, is_live, bit_le}

module _ {F : Type 0} ⦃fl : Float F⦄ (now : Time) (dep : Deployment F) where
  -- At most `n` active workloads more.
  abbrev HasGained : {A : Type 0} → ℕ → Orchestrator F → Result A × Orchestrator F → Type 0
  HasGained n o r = IsKeyed r.1.workloads × (live now dep r.1 ≤ n + live now dep o)

  erase-live :
      (id : String) (o : Orchestrator F)
      → IsKeyed o.workloads
      → count (is_live now dep) (values (erase id o.workloads)) ≤ live now dep o
  erase-live id o k = omega (arith, count-erase (is_live now dep) id o.workloads k)

  insert-live :
      (w : Workload) (o : Orchestrator F)
      → IsKeyed o.workloads
      → count (is_live now dep) (values (insert w.id w o.workloads)) ≤ suc (live now dep o)
  insert-live w o k = omega (
    arith,
    count-insert (is_live now dep) w.id w o.workloads k,
    bit_le now dep (is_live now dep w),
  )

  preempt_one-Gained :
      (req : Resource) (nodes : List (Node F)) (ws : List Workload) (o : Orchestrator F)
      → IsKeyed o.workloads
      → HasGained 0 o (preempt_one now dep req nodes ws o)
  unfolding preempt_one evict
  preempt_one-Gained req nodes [] o k = (k, omega arith)
  preempt_one-Gained req nodes (w ∷ ws) o k = elim (Option-cases (host_of nodes req w)) [
    | inl e ↦ rw (preempt_one, e) (preempt_one-Gained req nodes ws o k)
    | inr (n, e) ↦
        rw (preempt_one, e) (erase-IsKeyed w.id o.workloads k, omega (arith, erase-live w.id o k))
  ]

  place-Gained : (o : Orchestrator F) → IsKeyed o.workloads → HasGained 0 o (place now dep o)
  unfolding place select_for try_preempt_for_priority
  place-Gained o k =
      let p =
        preempt_one-Gained dep.spec.resources (values o.nodes)
          (slice_stable preempt_first (keep (is_candidate dep) (values o.workloads))) o k in
      (λ key. ground (arith, k key, p.0 key), ground (arith, p.1))

  reserve-Gained :
      (n : Node F) (o : Orchestrator F) → IsKeyed o.workloads → HasGained 1 o (reserve now dep n o)
  unfolding reserve
  reserve-Gained n o k =
      let w = new_workload now dep n (o.ids (suc o.serial)) in
      (insert-IsKeyed w.id w o.workloads k, omega (arith, insert-live w o k))

  send-workloads :
      (w : Workload) (o : Orchestrator F) → (send now dep w o).1.workloads ≡ o.workloads
  send-workloads w o = elim (Result-cases (resolve_secret_files_for_deployment dep o).0) [
    | inl (files, e) ↦ (send_ok now dep w o files (ap₂ (λ a b. (a, b)) e (resolve-state dep o))).1
    | inr (e, h) ↦
        ap (λ r. r.1.workloads)
          (send_err now dep w o e (ap₂ (λ a b. (a, b)) h (resolve-state dep o)))
  ]

  abbrev pub Gained : ℕ → Orchestrator F → List (String × Workload) → Type 0
  Gained n o t = IsKeyed t × (count (is_live now dep) (values t) ≤ n + live now dep o)

  create-Gained :
      (o : Orchestrator F)
      → IsKeyed o.workloads
      → Gained 1 o (create_workload_for_deployment now dep o).1.workloads
  create-Gained o k =
      let p = place-Gained o k in
      let o₁ = (place now dep o).1 in
      elim (Result-cases (place now dep o).0) [
        | inl (n, e) ↦
            let r = reserve-Gained n o₁ p.0 in
            let steps = create_steps now dep o o₁ n (ap₂ (λ a b. (a, b)) e refl) in
            let same = ap (λ x. x.1.workloads) steps ∙ send-workloads _ (reserve now dep n o₁).1 in
            subst (Gained 1 o) (sym same) (r.0, omega (arith, r.1, p.1))
        | inr (x, e) ↦
            let steps = create_failing now dep o o₁ x (ap₂ (λ a b. (a, b)) e refl) in
            subst (Gained 1 o) (sym (ap (λ y. y.1.workloads) steps)) (p.0, omega (arith, p.1))
      ]

  pub create_workloads-Gained :
      (n : ℕ) (o : Orchestrator F)
      → IsKeyed o.workloads
      → Gained n o (create_workloads now dep n o).1.workloads
  unfolding create_workloads
  create_workloads-Gained zero o k = (k, omega arith)
  create_workloads-Gained (suc n) o k =
      let c = create-Gained o k in
      let o₁ = (create_workload_for_deployment now dep o).1 in
      let rest = create_workloads-Gained n o₁ c.0 in
      elim (Result-cases (create_workload_for_deployment now dep o).0) [
        | inl (u, e) ↦
            let same : (create_workloads now dep (suc n) o).1.workloads
                ≡ (create_workloads now dep n o₁).1.workloads =
              ground (arith, e) in
            subst (Gained (suc n) o) (sym same) (rest.0, omega (arith, rest.1, c.1))
        | inr (x, e) ↦
            let same : (create_workloads now dep (suc n) o).1.workloads ≡ o₁.workloads =
              ground (arith, e) in
            subst (Gained (suc n) o) (sym same) (c.0, omega (arith, c.1))
      ]
