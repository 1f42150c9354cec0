-- ===== src/Roles/Scope.antt =====
-- The bindings that apply in a namespace.
use Prim.Native.String.{◌++◌ as append}
use distributed_container_or.Base.{
  ◌≡◌, refl, ap, sym, subst, ◌∙◌, inl, inr, String, true, false, List, [], ◌∷◌, ◌++◌, Option, none,
  some, arith, ok, Elem, Elem-append, keep-Elem, Bool-cases, is_blank, cut_prefix-append,
}
use distributed_container_or.Model.Floats.{Time}
use distributed_container_or.Model.Storage.{RoleBinding}
use distributed_container_or.Store.{stamped, with_prefix}
use distributed_container_or.Store.Table.{insert, replace, place, has_key, values}
use distributed_container_or.Store.State.{Orchestrator}
use distributed_container_or.Store.Traffic.{begins}
use distributed_container_or.Store.Access.{
  upsert_role_binding, role_binding_key, role_binding_prefix,
}
use distributed_container_or.Roles.{applying}

module _ {ℓ} {V : Type ℓ} (k : String) (v : V) where
  Elem-replace : (t : List (String × V)) → has_key k t ≡ true → Elem (k, v) (replace k v t)
  unfolding replace has_key
  Elem-replace [] e = cc e
  Elem-replace ((j, w) ∷ t) e = ground (arith, Elem-replace t)

  Elem-place : (t : List (String × V)) → Elem (k, v) (place k v t)
  unfolding place
  Elem-place [] = inl refl
  Elem-place ((j, w) ∷ t) = ground (arith, Elem-place t)

  -- What is written stands in the table.
  pub Elem-insert : (t : List (String × V)) → Elem (k, v) (insert k v t)
  unfolding insert
  Elem-insert t = ground (arith, Elem-replace t, Elem-place t)

  Elem-values : (t : List (String × V)) → Elem (k, v) t → Elem v (values t)
  unfolding values
  Elem-values [] m = elim m [ ]
  Elem-values ((j, w) ∷ t) (inl e) = inl (ap (λ (p : String × V). p.1) e)
  Elem-values ((j, w) ∷ t) (inr m) = inr (Elem-values t m)

  -- Where the key begins with the prefix, the value is listed under it.
  pub Elem-with_prefix :
      (prefix : String) (t : List (String × V))
      → begins k prefix ≡ true
      → Elem v (values (with_prefix prefix (insert k v t)))
  unfolding with_prefix
  Elem-with_prefix prefix t b =
      Elem-values (with_prefix prefix (insert k v t))
        (keep-Elem (λ e. begins e.0 prefix) (k, v) (insert k v t) (Elem-insert t) b)

begins-append : (prefix rest : String) → begins (append prefix rest) prefix ≡ true
begins-append prefix rest =
    ap (λ (o : Option String). elim o [ none ↦ false | some _ ↦ true ])
      (cut_prefix-append prefix rest)

global_prefix : role_binding_prefix "global" ≡ "global:"
unfolding role_binding_prefix is_blank
global_prefix = refl

begins-global :
    (b : RoleBinding)
    → b.namespace ≡ "global"
    → begins (role_binding_key b.namespace b.name) "global:" ≡ true
begins-global b e =
    subst (λ p. begins (append p b.name) "global:" ≡ true)
      (sym global_prefix ∙ ap role_binding_prefix (sym e)) (begins-append "global:" b.name)

-- A binding that is written for the namespace named "global" applies in every namespace.
pub applying-global :
    {F : Type 0} (o : Orchestrator F) (now : Time) (b : RoleBinding) (namespace : String)
    → b.namespace ≡ "global"
    → (bs : List RoleBinding) × ((applying namespace (upsert_role_binding now b o).1).0 ≡ ok bs)
      × Elem (record b { created_at = stamped b.created_at now; updated_at = now }) bs
unfolding applying upsert_role_binding is_blank role_binding_prefix
applying-global o now b namespace e =
    let stored = record b { created_at = stamped b.created_at now; updated_at = now } in
    let key = role_binding_key b.namespace b.name in
    let t = insert key stored o.role_bindings in
    let global = values (with_prefix "global:" t) in
    let listed = Elem-with_prefix key stored "global:" o.role_bindings (begins-global b e) in
    elim (Bool-cases (is_blank namespace)) [
      | inl blank ↦ (global, rw blank, listed)
      | inr named ↦
          let own = values (with_prefix (role_binding_prefix namespace) t) in
          (global ++ own, rw named, (Elem-append stored global own).1 (inl listed))
    ]
