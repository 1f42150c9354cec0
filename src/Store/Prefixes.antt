-- ===== src/Store/Prefixes.antt =====
-- The entries of a table under a key prefix: what `with_prefix` lists.
use Prim.Native.String.{◌++◌ as append}
use distributed_container_or.Base.{
  ◌≡◌, ◌∙◌, sym, inl, inr, ◌↔◌, String, Bool, true, false, List, [], ◌∷◌, Option, none, some, ap,
  Elem, Elem-keep, keep-Elem, Option-cases, cut_prefix, cut_prefix-append, cut_prefix-some,
}
use distributed_container_or.Store.Table.{values}
use distributed_container_or.Store.{with_prefix}

-- The key begins with the prefix.
abbrev pub Begins : String → String → Type 0
Begins prefix key = (rest : String) × (key ≡ append prefix rest)

abbrev is_there : Option String → Bool
is_there r = elim r [ none ↦ false | some _ ↦ true ]

abbrev begins : String → String → Bool
begins prefix key = is_there (cut_prefix key prefix)

begins-Begins : (prefix key : String) → begins prefix key ≡ true → Begins prefix key
begins-Begins prefix key e = elim (Option-cases (cut_prefix key prefix)) [
  | inl h ↦ cc (sym e ∙ ap is_there h)
  | inr (rest, h) ↦ (rest, cut_prefix-some key prefix rest h)
]

Begins-begins : (prefix key : String) → Begins prefix key → begins prefix key ≡ true
Begins-begins prefix key (rest, e) =
    ap (begins prefix) e ∙ ap is_there (cut_prefix-append prefix rest)

module _ {ℓ} {V : Type ℓ} where
  pub with_prefix-Elem :
      (prefix : String) (e : String × V) (t : List (String × V))
      → Elem e (with_prefix prefix t) ↔ (Elem e t × Begins prefix e.0)
  unfolding with_prefix
  with_prefix-Elem prefix e t = (
    λ m. let k = Elem-keep (λ x. begins prefix x.0) e t m in (k.0, begins-Begins prefix e.0 k.1),
    λ (m, b). keep-Elem (λ x. begins prefix x.0) e t m (Begins-begins prefix e.0 b),
  )

  pub values-Elem :
      (v : V) (t : List (String × V)) → Elem v (values t) ↔ ((k : String) × Elem (k, v) t)
  unfolding values
  values-Elem v [] = (λ m. elim m [ ], λ (k, m). elim m [ ])
  values-Elem v ((j, w) ∷ t) =
      let rest = values-Elem v t in
      (
        λ m. elim m [
          | inl e ↦ (j, inl (ap (λ x. (j, x)) e))
          | inr later ↦ let (k, n) = rest.0 later in (k, inr n)
        ],
        λ (k, m). elim m [
          | inl e ↦ inl (ap (λ (x : String × V). x.1) e)
          | inr later ↦ inr (rest.1 (k, later))
        ],
      )
