-- ===== src/Placement/Preemption.antt =====
-- `tryPreemptForPriority`: which workload it evicts, and when it evicts none.
use distributed_container_or.Base.{
  find-Elem, ◌≡◌, ◌≢◌, refl, ◌⊎◌, inl, inr, String, true, false, List, [], ◌∷◌, ◌<ℤ◌, arith, Elem,
  All-Elem, keep, Elem-keep, keep-Elem, slice_stable, Ordered, Ordered-slice_stable, IsWeakOrder,
  Elem-slice_stable, slice_stable-Elem, none, some, ok, Option-cases, str_eq, eq_iff, if◌then◌else◌,
}
use distributed_container_or.Model.Floats.{Time}
use distributed_container_or.Model.Cluster.{Resource, Node, Workload, is_ready}
use distributed_container_or.Model.Deploy.{Deployment}
use distributed_container_or.Store.Table.{lookup, values, lookup-erase}
use distributed_container_or.Store.State.{Orchestrator}
use distributed_container_or.Placement.{
  preempt_first, makes_room, host_of, evict, preempt_one, is_candidate, try_preempt_for_priority,
}

preempt_first-IsWeakOrder : IsWeakOrder preempt_first
preempt_first-IsWeakOrder = record {
  asymm = λ x y e. ground arith;
  trans_not = λ x y z e f. ground arith;
}

module _ {F : Type 0} (now : Time) (dep : Deployment F) (req : Resource) where
  host_of-found :
      (nodes : List (Node F)) (v : Workload) (n : Node F)
      → host_of nodes req v ≡ some n
      → Elem n nodes × (n.id ≡ v.node_id) × (is_ready n.status ≡ true) × (makes_room n v req ≡ true)
  unfolding host_of
  host_of-found nodes v n e =
      ground (arith, find-Elem (λ m. str_eq m.id v.node_id) nodes n, eq_iff n.id v.node_id)

  -- What the loop over the candidates does: it evicts the first that has a host, if one has.
  preempt_one-cases :
      (nodes : List (Node F)) (ws : List Workload) (o : Orchestrator F)
      → Ordered preempt_first ws
      → ((v : Workload) × (n : Node F) × (preempt_one now dep req nodes ws o ≡ evict now dep n v o)
          × Elem v ws
          × (host_of nodes req v ≡ some n)
          × ((w : Workload) → Elem w ws → host_of nodes req w ≢ none → preempt_first w v ≡ false))
        ⊎ ((preempt_one now dep req nodes ws o ≡ (ok false, o))
            × ((w : Workload) → Elem w ws → host_of nodes req w ≡ none))
  unfolding preempt_one
  preempt_one-cases nodes [] o s = inr (refl, λ w m. elim m [ ])
  preempt_one-cases nodes (v ∷ ws) o s = elim (Option-cases (host_of nodes req v)) [
    | inl gone ↦ elim (preempt_one-cases nodes ws o s.1) [
      | inl (w, n, run, m, h, first) ↦
          inl (w, n, ground (arith, gone, run), inr m, h, λ x mx hx. ground (arith, gone, first x))
      | inr (run, none_has) ↦
          inr (ground (arith, gone, run), λ w m. ground (arith, gone, none_has w))
    ]
    | inr (n, found) ↦ inl (
      v,
      n,
      ground (arith, found),
      inl refl,
      found,
      λ w m h. ground (
        arith,
        m,
        All-Elem (λ y. preempt_first y v ≡ false) w ws s.0,
        preempt_first-IsWeakOrder.asymm v v,
      ),
    )
  ]

  -- A workload that preemption may evict: of lower priority, of another deployment, and on a ready
  -- node that has room for the request once the workload is gone.
  pub record IsVictim (o : Orchestrator F) (v : Workload) (n : Node F) : Type 0 where
    pub stored : Elem v (values o.workloads)
    pub lower : v.priority <ℤ dep.spec.priority
    pub other : v.deployment_id ≢ dep.id
    pub node_stored : Elem n (values o.nodes)
    pub node : n.id ≡ v.node_id
    pub ready : is_ready n.status ≡ true
    pub room : makes_room n v req ≡ true

  abbrev ordered : Orchestrator F → List Workload
  ordered o = slice_stable preempt_first (keep (is_candidate dep) (values o.workloads))

  ordered-IsVictim :
      (o : Orchestrator F) (v : Workload) (n : Node F)
      → Elem v (ordered o)
      → host_of (values o.nodes) req v ≡ some n
      → IsVictim o v n
  ordered-IsVictim o v n m h =
      let k =
        Elem-keep (is_candidate dep) v (values o.workloads)
          (Elem-slice_stable preempt_first v _ m) in
      let f = host_of-found (values o.nodes) v n h in
      record {
        stored = k.0;
        lower = ground arith;
        other = ground (arith, eq_iff v.deployment_id dep.id);
        node_stored = f.0;
        node = f.1;
        ready = f.2;
        room = f.3;
      }

  ordered-Elem :
      (o : Orchestrator F) (w : Workload)
      → Elem w (values o.workloads)
      → w.priority <ℤ dep.spec.priority
      → w.deployment_id ≢ dep.id
      → Elem w (ordered o)
  ordered-Elem o w m lower other = slice_stable-Elem preempt_first w _ (
      keep-Elem (is_candidate dep) w (values o.workloads) m
        (ground (arith, eq_iff w.deployment_id dep.id)))

  evict-effect :
      (o : Orchestrator F) (v : Workload) (n : Node F)
      → ((evict now dep n v o).0 ≡ ok true)
        × ((id : String)
            → lookup id (evict now dep n v o).1.workloads
              ≡ (if str_eq v.id id then none else lookup id o.workloads))
        × ((evict now dep n v o).1.assignments ≡ o.assignments)
  unfolding evict
  evict-effect o v n = (refl, λ id. lookup-erase v.id id o.workloads, refl)

  -- What preemption leaves where it evicts `v` from the node `n`: nobody's workload but the victim's
  -- is gone, and no assignment is queued.
  pub record HasEvicted (o o' : Orchestrator F) (v : Workload) (n : Node F) : Type 0 where
    pub victim : IsVictim o v n
    pub gone :
        (id : String)
        → lookup id o'.workloads ≡ (if str_eq v.id id then none else lookup id o.workloads)
    pub not_told : o'.assignments ≡ o.assignments
    pub lowest :
        (w : Workload)
        → Elem w (values o.workloads)
        → w.priority <ℤ dep.spec.priority
        → w.deployment_id ≢ dep.id
        → host_of (values o.nodes) req w ≢ none
        → preempt_first w v ≡ false

  -- Preemption either evicts one workload, which has lower priority than the deployment, is of another
  -- one and gives a ready node the room that is asked for, and before which no other such workload
  -- comes (one of lower priority, or of the same and newer); its node is not told to stop it. Or
  -- there is no such workload, and nothing changes.
  pub try_preempt_lem :
      (o : Orchestrator F)
      → ((v : Workload) × (n : Node F) × ((try_preempt_for_priority now dep req o).0 ≡ ok true)
          × HasEvicted o (try_preempt_for_priority now dep req o).1 v n)
        ⊎ ((try_preempt_for_priority now dep req o ≡ (ok false, o))
            × ((w : Workload)
                → Elem w (values o.workloads)
                → w.priority <ℤ dep.spec.priority
                → w.deployment_id ≢ dep.id
                → host_of (values o.nodes) req w ≡ none))
  unfolding try_preempt_for_priority
  try_preempt_lem o =
      elim (preempt_one-cases (values o.nodes) (ordered o) o
        (Ordered-slice_stable preempt_first preempt_first-IsWeakOrder _)) [
          | inl (v, n, run, m, h, first) ↦
              let e = evict-effect o v n in
              inl (
                v,
                n,
                rw run e.0,
                record {
                  victim = ordered-IsVictim o v n m h;
                  gone = rw run e.1;
                  not_told = rw run e.2;
                  lowest = λ w k lower other has. first w (ordered-Elem o w k lower other) has;
                },
              )
          | inr (run, none_has) ↦
              inr (run, λ w k lower other. none_has w (ordered-Elem o w k lower other))
        ]
