-- ===== src/Jobs/Listing.antt =====
-- Which jobs a pass goes through.
use distributed_container_or.Base.{
  ◌≡◌, refl, ap, sym, subst, ◌∙◌, inl, inr, String, List, [], ◌∷◌, ◌++◌, arith, Result, ok, err,
  Elem, Elem-append,
}
use mathlib.Core.List.{append_assoc, append-nil}
use distributed_container_or.Model.Storage.{Namespace}
use distributed_container_or.Model.Work.{Job}
use distributed_container_or.Store.State.{Orchestrator, M}
use distributed_container_or.Store.Work.{list_jobs}
use distributed_container_or.Jobs.{over_namespaces}

module _ {F : Type 0} (o : Orchestrator F) where
  -- What a listing answers in the state.
  listed : String → List (Job F)
  listed name = elim (list_jobs name o).0 [ ok jobs ↦ jobs | err _ ↦ [] ]

  list_jobs-listed : (name : String) → list_jobs name o ≡ (ok (listed name), o)
  unfolding list_jobs listed
  list_jobs-listed name = refl

  -- What the namespaces add.
  added : List Namespace → List (Job F)
  added [] = []
  added (ns ∷ nss) = listed ns.name ++ added nss

  over_step :
      {A : Type 0} (list : String → M F (List A)) (items xs : List A) (ns : Namespace)
      (nss : List Namespace)
      → list ns.name o ≡ (ok xs, o)
      → over_namespaces list items (ns ∷ nss) o ≡ over_namespaces list (items ++ xs) nss o
  unfolding over_namespaces
  over_step {A} list items xs ns nss h =
      ap
        (λ (r : Result (List A) × Orchestrator F).
          over_namespaces list (elim r.0 [ ok ys ↦ items ++ ys | err _ ↦ items ]) nss r.1)
        h

  over_namespaces-added :
      (items : List (Job F)) (nss : List Namespace)
      → over_namespaces list_jobs items nss o ≡ (ok (items ++ added nss), o)
  unfolding over_namespaces added
  over_namespaces-added items [] = rw (append-nil items)
  over_namespaces-added items (ns ∷ nss) =
      over_step list_jobs items (listed ns.name) ns nss (list_jobs-listed ns.name)
      ∙ over_namespaces-added (items ++ listed ns.name) nss
      ∙ ap (λ (xs : List (Job F)). (ok xs, o)) (append_assoc items (listed ns.name) (added nss))

  listed-added :
      (name : String) (ns : Namespace) (nss : List Namespace) (job : Job F)
      → Elem ns nss
      → ns.name ≡ name
      → Elem job (listed name)
      → Elem job (added nss)
  unfolding added
  listed-added name ns [] job m e k = elim m [ ]
  listed-added name ns (x ∷ nss) job (inl same) e k =
      (Elem-append job (listed x.name) (added nss)).1
        (inl (subst (λ n. Elem job (listed n)) (sym e ∙ ap (λ (y : Namespace). y.name) same) k))
  listed-added name ns (x ∷ nss) job (inr m) e k =
      (Elem-append job (listed x.name) (added nss)).1 (inr (listed-added name ns nss job m e k))

  -- Where the namespace "default" is stored, a pass goes through each job of it twice: once for the
  -- default, and once more for the namespace.
  pub jobs_twice :
      (ns : Namespace) (nss : List Namespace) (jobs : List (Job F))
      → (list_jobs "default" o).0 ≡ ok jobs
      → Elem ns nss
      → ns.name ≡ "default"
      → (more : List (Job F)) × (over_namespaces list_jobs jobs nss o ≡ (ok (jobs ++ more), o))
        × ((job : Job F) → Elem job jobs → Elem job more)
  unfolding listed
  jobs_twice ns nss jobs e m named = (
    added nss,
    over_namespaces-added jobs nss,
    λ job k. listed-added "default" ns nss job m named (ground (arith, e, k)),
  )
