-- ===== src/Store/Queue.antt =====
-- The queue of a node's assignments: `PopAssignments` delivers each one at most once.
use Prim.Native.String.{◌++◌ as append}
use distributed_container_or.Base.{
  ℕ, ◌≤◌, leb, ◌⊎◌, inl, inr, Bool-cases, take_all, ◌≡◌, refl, String, not, List, [], ◌∷◌, none, ok,
  arith, str_eq, eq_iff, if◌then◌else◌, min, length, length-take, take, keep, any, Elem, Elem-take,
}
use distributed_container_or.Model.Cluster.{Assignment}
use distributed_container_or.Store.Table.{lookup, values, has_key}
use distributed_container_or.Store.State.{Orchestrator}
use distributed_container_or.Store.Prefixes.{Begins, with_prefix-Elem}
use distributed_container_or.Store.{with_prefix, pop_assignments}

module _ {ℓ} {V : Type ℓ} where
  lookup-without :
      (k : String) (gone t : List (String × V))
      → lookup k (keep (λ e. not (any (λ p. str_eq p.0 e.0) gone)) t)
        ≡ (if any (λ p. str_eq p.0 k) gone then none else lookup k t)
  unfolding lookup
  lookup-without k gone [] = ground arith
  lookup-without k gone ((j, w) ∷ t) = ground (arith, eq_iff j k, lookup-without k gone t)

module _ {F : Type 0} (o : Orchestrator F) (node_id : String) (n : ℕ) where
  abbrev pub queued : List (String × Assignment)
  queued = with_prefix (append node_id ":") o.assignments

  -- The key begins with the node's identifier and a colon.
  abbrev pub IsQueuedUnder : String → Type 0
  IsQueuedUnder key = Begins (append node_id ":") key

  taken : (e : String × Assignment) → Elem e queued → Elem e (take n queued) ⊎ (n ≤ length queued)
  taken e m = elim (Bool-cases (leb (length queued) n)) [
    | inl all_taken ↦ inl (rw (take_all n queued (ground (arith, all_taken))) m)
    | inr more ↦ inr (ground (arith, more))
  ]

  -- A poll delivers assignments that were stored under keys of the node, and no more than it asks for:
  -- where one that is stored under such a key is not delivered, it delivers as many as it asks for.
  -- Those that are delivered are gone from the store, and no other is. A key of the node begins with its
  -- identifier and a colon.
  pub pop_assignments_lem :
      (popped : List (String × Assignment)) × ((pop_assignments node_id n o).0 ≡ ok (values popped))
      × ((e : String × Assignment) → Elem e popped → Elem e o.assignments × IsQueuedUnder e.0)
      × ((e : String × Assignment)
          → Elem e o.assignments
          → IsQueuedUnder e.0
          → Elem e popped ⊎ (length popped ≡ n))
      × (length popped ≡ min n (length queued))
      × ((key : String)
          → lookup key (pop_assignments node_id n o).1.assignments
            ≡ (if has_key key popped then none else lookup key o.assignments))
  unfolding pop_assignments has_key
  pop_assignments_lem =
      let popped = take n queued in
      let listed =
        λ (e : String × Assignment). with_prefix-Elem (append node_id ":") e o.assignments in
      (
        popped,
        refl,
        λ e m. (listed e).0 (Elem-take n e queued m),
        λ e m b. elim (taken e ((listed e).1 (m, b))) [
          | inl there ↦ inl there
          | inr full ↦ inr (omega (arith, length-take n queued))
        ],
        length-take n queued,
        λ key. lookup-without key popped o.assignments,
      )
