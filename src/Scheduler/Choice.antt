-- ===== src/Scheduler/Choice.antt =====
-- `SelectNode` chooses a cheapest node among those that pass the filters, and fails only where
-- none does.
use distributed_container_or.Base.{
  ◌≡◌, Bool, subst, inl, inr, true, false, List, [], ◌∷◌, map, arith, keep, Elem, All-Elem,
  Elem-keep, keep-Elem, ◌↔◌, IsWeakOrder, Ordered, Ordered-slice_stable, slice_stable,
  slice_stable-Elem, Elem-slice_stable, ok, err, no_schedulable_node, refl, Bool-cases,
}
use distributed_container_or.Model.Floats.{Float}
use distributed_container_or.Model.Cluster.{Resource, Labels, Toleration, Node}
use distributed_container_or.Scheduler.{
  Planner, schedulable, score_node, cheaper, first, candidates, select_node,
}

module _ {F : Type 0} ⦃fl : Float F⦄ (p : Planner F) (req : Resource) where
  Elem-scored :
      (c : Node F × F) (ns : List (Node F))
      → Elem c (map (λ n. (n, score_node p n req)) ns)
      → Elem c.0 ns × (c.1 ≡ score_node p c.0 req)
  Elem-scored c [] m = elim m [ ]
  Elem-scored c (n ∷ ns) m = ground (arith, Elem-scored c ns)

  scored-Elem :
      (m : Node F) (ns : List (Node F))
      → Elem m ns
      → Elem {A = Node F × F} (m, score_node p m req) (map (λ n. (n, score_node p n req)) ns)
  scored-Elem m [] e = elim e [ ]
  scored-Elem m (n ∷ ns) e = ground (arith, scored-Elem m ns)

  module _ (labels : Labels) (tolerations : List Toleration) where
    abbrev passes : Node F → Bool
    passes = schedulable req labels tolerations

    first-ok :
        {n : Node F} (cs : List (Node F × F))
        → first cs ≡ ok n
        → (c : Node F × F) × (ds : List (Node F × F)) × (cs ≡ c ∷ ds) × (c.0 ≡ n)
    unfolding first
    first-ok [] e = cc
    first-ok (c ∷ ds) e = (c, ds, refl, ground arith)

    first-err : (cs : List (Node F × F)) → first cs ≡ err no_schedulable_node → cs ≡ []
    unfolding first
    first-err [] e = refl
    first-err (c ∷ ds) e = cc

    lowest :
        (o : IsWeakOrder fl.lt) (c : Node F × F) (ds : List (Node F × F)) (d : Node F × F)
        → Ordered cheaper (c ∷ ds)
        → Elem d (c ∷ ds)
        → fl.lt d.1 c.1 ≡ false
    lowest o c ds d s (inl same) = ground (arith, o.asymm c.1 c.1, o.asymm d.1 c.1)
    lowest o c ds d s (inr m) = All-Elem (λ y. fl.lt y.1 c.1 ≡ false) d ds s.0 m

    cheaper-IsWeakOrder : IsWeakOrder fl.lt → IsWeakOrder (cheaper {F = F})
    cheaper-IsWeakOrder o = record {
      asymm = λ x y. o.asymm x.1 y.1;
      trans_not = λ x y z. o.trans_not x.1 y.1 z.1;
    }

    sorted : List (Node F) → List (Node F × F)
    sorted nodes = slice_stable cheaper (candidates p nodes req labels tolerations)

    Elem-sorted :
        (nodes : List (Node F)) (c : Node F × F)
        → Elem c (sorted nodes)
        → Elem c.0 nodes × (passes c.0 ≡ true) × (c.1 ≡ score_node p c.0 req)
    unfolding sorted candidates
    Elem-sorted nodes c m =
        let s = Elem-scored c (keep passes nodes) (Elem-slice_stable cheaper c _ m) in
        let k = Elem-keep passes c.0 nodes s.0 in (k.0, k.1, s.1)

    sorted-Elem :
        (nodes : List (Node F)) (m : Node F)
        → Elem m nodes
        → passes m ≡ true
        → Elem {A = Node F × F} (m, score_node p m req) (sorted nodes)
    unfolding sorted candidates
    sorted-Elem nodes m e h =
        slice_stable-Elem cheaper _ _
          (scored-Elem m (keep passes nodes) (keep-Elem passes m nodes e h))

    first-nothing :
        (cs : List (Node F × F))
        → ((c : Node F × F) → ¬ Elem c cs)
        → first cs ≡ err no_schedulable_node
    unfolding first
    first-nothing [] h = refl
    first-nothing (c ∷ ds) h = absurd (h c (inl refl))

    -- The chosen node is one of those given, passes the four filters, and no other node that
    -- passes them has a lower score, where scores are compared by a weak order.
    pub select_node-ok :
        (o : IsWeakOrder fl.lt) (nodes : List (Node F)) {n : Node F}
        → select_node p nodes req labels tolerations ≡ ok n
        → Elem n nodes
          × (passes n ≡ true)
          × ((m : Node F)
              → Elem m nodes
              → passes m ≡ true
              → fl.lt (score_node p m req) (score_node p n req) ≡ false)
    unfolding select_node sorted
    select_node-ok o nodes {n} e =
        let (c, ds, split, same) = first-ok (sorted nodes) e in
        let s = Elem-sorted nodes c (rw split (inl refl)) in
        let order =
          Ordered-slice_stable cheaper (cheaper-IsWeakOrder o)
            (candidates p nodes req labels tolerations) in
        rw (← same) (
          s.0,
          s.1,
          λ m e h.
              subst (λ x. fl.lt (score_node p m req) x ≡ false) s.2
                (lowest o c ds (m, score_node p m req) (rw split at order)
                  (rw split at (sorted-Elem nodes m e h))),
        )

    -- `SelectNode` fails with `ErrNoSchedulableNode` exactly when no node passes the filters.
    pub select_node-err :
        (nodes : List (Node F))
        → (select_node p nodes req labels tolerations ≡ err no_schedulable_node)
          ↔ ((m : Node F) → Elem m nodes → passes m ≡ false)
    unfolding select_node sorted
    select_node-err nodes = (only_if, if_none)
      where
        only_if :
            first (sorted nodes) ≡ err no_schedulable_node
            → (m : Node F) → Elem m nodes
            → passes m ≡ false
        only_if e m mem = elim (Bool-cases (passes m)) [
          | inl h ↦ elim (rw (first-err (sorted nodes) e) at (sorted-Elem nodes m mem h)) [ ]
          | inr h ↦ h
        ]

        if_none :
            ((m : Node F) → Elem m nodes → passes m ≡ false)
            → first (sorted nodes) ≡ err no_schedulable_node
        if_none h =
            first-nothing (sorted nodes) λ c m. let s = Elem-sorted nodes c m in cc (h c.0 s.0, s.1)
