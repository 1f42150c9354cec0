-- ===== src/Nodes/Draining.antt =====
-- Draining a node: its workloads are told to end, and what undoes it.
use distributed_container_or.Base.{
  ◌≡◌, refl, inl, inr, String, true, ◌&&◌, List, [], ◌∷◌, arith, Elem, some, ok, str_eq, eq_iff,
  if◌then◌else◌, Bool-cases,
}
use distributed_container_or.Model.Floats.{Time}
use distributed_container_or.Model.Cluster.{Workload, WorkloadStatus}
use distributed_container_or.Store.Table.{lookup, lookup-insert, values}
use distributed_container_or.Store.State.{Orchestrator, for_each}
use distributed_container_or.Nodes.{terminating, is_on, remediate_one, remediate_unhealthy_node}

module _ {F : Type 0} (now : Time) (node_id reason : String) where
  -- The store holds the workload as terminating.
  abbrev pub IsEnding : String → Orchestrator F → Type 0
  IsEnding id o =
      (w : Workload) × (lookup id o.workloads ≡ some w) × (w.status ≡ WorkloadStatus.terminating)

  one-ok : (w : Workload) (o : Orchestrator F) → (remediate_one now node_id reason w o).0 ≡ ok tt
  unfolding remediate_one
  one-ok w o = ground arith

  -- A turn of the loop writes its workload as terminating, or nothing.
  one-lookup :
      (w : Workload) (id : String) (o : Orchestrator F)
      → lookup id (remediate_one now node_id reason w o).1.workloads ≡ (
          if is_on node_id w && str_eq w.id id
          then some (record (terminating w) { updated_at = now })
          else lookup id o.workloads)
  unfolding remediate_one
  one-lookup w id o =
      ground
        (arith, lookup-insert w.id id (record (terminating w) { updated_at = now }) o.workloads)

  one-IsEnding :
      (w : Workload) (id : String) (o : Orchestrator F)
      → IsEnding id o
      → IsEnding id (remediate_one now node_id reason w o).1
  one-IsEnding w id o (v, found, ends) = elim (Bool-cases (is_on node_id w && str_eq w.id id)) [
    | inl e ↦
        (record (terminating w) { updated_at = now }, ground (arith, e, one-lookup w id o), refl)
    | inr e ↦ (v, ground (arith, e, found, one-lookup w id o), ends)
  ]

  all-cons :
      (w : Workload) (ws : List Workload) (o : Orchestrator F)
      → for_each (w ∷ ws) (remediate_one now node_id reason) o
        ≡ for_each ws (remediate_one now node_id reason) (remediate_one now node_id reason w o).1
  unfolding for_each
  all-cons w ws o = ground (arith, one-ok w o)

  all-IsEnding :
      (ws : List Workload) (id : String) (o : Orchestrator F)
      → IsEnding id o
      → IsEnding id (for_each ws (remediate_one now node_id reason) o).1
  unfolding for_each
  all-IsEnding [] id o e = e
  all-IsEnding (w ∷ ws) id o e = rw (all-cons w ws o) (all-IsEnding ws id _ (one-IsEnding w id o e))

  all_end :
      (ws : List Workload) (o : Orchestrator F) (w : Workload)
      → Elem w ws
      → is_on node_id w ≡ true
      → IsEnding w.id (for_each ws (remediate_one now node_id reason) o).1
  all_end [] o w m on = elim m [ ]
  all_end (v ∷ ws) o w (inl same) on = rw (all-cons v ws o) (
      all-IsEnding ws w.id _ (
        record (terminating v) { updated_at = now },
        ground (arith, one-lookup v w.id o, eq_iff w.id w.id),
        refl,
      ))
  all_end (v ∷ ws) o w (inr later) on = rw (all-cons v ws o) (all_end ws _ w later on)

  all-ok :
      (ws : List Workload) (o : Orchestrator F)
      → (for_each ws (remediate_one now node_id reason) o).0 ≡ ok tt
  unfolding for_each
  all-ok [] o = refl
  all-ok (w ∷ ws) o = rw (all-cons w ws o) (all-ok ws _)

  -- The remediation of a node does not fail, and leaves each pending or running workload of the node
  -- that the store held written as terminating.
  pub remediate_lem :
      (o : Orchestrator F)
      → ((remediate_unhealthy_node now node_id reason o).0 ≡ ok tt)
        × ((w : Workload)
            → Elem w (values o.workloads)
            → is_on node_id w ≡ true
            → IsEnding w.id (remediate_unhealthy_node now node_id reason o).1)
  unfolding remediate_unhealthy_node
  remediate_lem o = (all-ok (values o.workloads) o, λ w m on. all_end (values o.workloads) o w m on)
