-- ===== src/Access/Merging.antt =====
-- The roles that `mergeRoles` puts together (internal/api/httpserver.go).
use distributed_container_or.Base.{
  ◌≡◌, ◌≢◌, refl, sym, ap, ◌∙◌, ◌⊎◌, inl, inr, String, ◌||◌, List, [], ◌∷◌, ◌++◌, Elem, Elem-append,
  any, any-Elem, eq_iff, str_eq, Bool-cases,
}
use distributed_container_or.Access.{normal, merge_into, merge_roles}

-- The role, up to its spaces and the case of its letters.
abbrev pub Among : String → List String → Type 0
Among role rs = (r : String) × Elem r rs × (normal r ≡ normal role)

merge_into-Elem :
    (out rs : List String) (r : String) → Elem r (merge_into out rs) → Elem r out ⊎ Elem r rs
unfolding merge_into
merge_into-Elem out [] r m = inl m
merge_into-Elem out (x ∷ xs) r m =
    elim (Bool-cases (str_eq (normal x) "" || any (λ o. str_eq (normal o) (normal x)) out)) [
      | inl skipped ↦ elim (merge_into-Elem out xs r (rw skipped at m)) [
        | inl before ↦ inl before
        | inr later ↦ inr (inr later)
      ]
      | inr new ↦ elim (merge_into-Elem (out ++ x ∷ []) xs r (rw new at m)) [
        | inl before ↦ elim ((Elem-append r out (x ∷ [])).0 before) [
          | inl old ↦ inl old
          | inr (inl here) ↦ inr (inl here)
          | inr (inr n) ↦ elim n [ ]
        ]
        | inr later ↦ inr (inr later)
      ]
    ]

merge_into-keeps : (out rs : List String) (r : String) → Elem r out → Elem r (merge_into out rs)
unfolding merge_into
merge_into-keeps out [] r m = m
merge_into-keeps out (x ∷ xs) r m =
    elim (Bool-cases (str_eq (normal x) "" || any (λ o. str_eq (normal o) (normal x)) out)) [
      | inl skipped ↦ rw skipped (merge_into-keeps out xs r m)
      | inr new ↦
          rw new (merge_into-keeps (out ++ x ∷ []) xs r ((Elem-append r out (x ∷ [])).1 (inl m)))
    ]

merge_into-Among :
    (out rs : List String) (r : String) → normal r ≢ "" → Elem r rs → Among r (merge_into out rs)
unfolding merge_into
merge_into-Among out [] r some_text m = elim m [ ]
merge_into-Among out (x ∷ xs) r some_text (inr later) =
    elim (Bool-cases (str_eq (normal x) "" || any (λ o. str_eq (normal o) (normal x)) out)) [
      | inl skipped ↦ rw skipped (merge_into-Among out xs r some_text later)
      | inr new ↦ rw new (merge_into-Among (out ++ x ∷ []) xs r some_text later)
    ]
merge_into-Among out (x ∷ xs) r some_text (inl here) =
    let same = ap normal (sym here) in
    elim (Bool-cases (str_eq (normal x) "")) [
      | inl blank ↦ elim (some_text (ap normal here ∙ (eq_iff (normal x) "").0 blank)) [ ]
      | inr full ↦ elim (Bool-cases (any (λ o. str_eq (normal o) (normal x)) out)) [
        | inl there ↦
            let (o, m, alike) = any-Elem (λ o. str_eq (normal o) (normal x)) out there in
            rw (full, there)
              (o, merge_into-keeps out xs o m, (eq_iff (normal o) (normal x)).0 alike ∙ same)
        | inr new ↦
            rw (full, new)
              (
                x,
                merge_into-keeps (out ++ x ∷ []) xs x
                    ((Elem-append x out (x ∷ [])).1 (inr (inl refl))),
                same,
              )
      ]
    ]

-- The merged roles are roles of either list, and have each that is not blank, up to its spaces and the
-- case of its letters.
pub merge_roles_lem :
    (existing incoming : List String) (r : String)
    → (Elem r (merge_roles existing incoming) → Elem r existing ⊎ Elem r incoming)
      × (normal r ≢ ""
          → Elem r existing ⊎ Elem r incoming
          → Among r (merge_roles existing incoming))
unfolding merge_roles
merge_roles_lem existing incoming r = (
  λ m. elim (merge_into-Elem (merge_into [] existing) incoming r m) [
    | inl before ↦ elim (merge_into-Elem [] existing r before) [
      | inl n ↦ elim n [ ]
      | inr old ↦ inl old
    ]
    | inr later ↦ inr later
  ],
  λ some_text either. elim either [
    | inl old ↦
        let (o, m, same) = merge_into-Among [] existing r some_text old in
        (o, merge_into-keeps (merge_into [] existing) incoming o m, same)
    | inr new ↦ merge_into-Among (merge_into [] existing) incoming r some_text new
  ],
)
