-- ===== src/Roles/Inheritance.antt =====
-- When the visit of the bindings ends, and what it collects.
use distributed_container_or.Base.{
  ℕ, zero, suc, ◌<◌, ◌≡◌, refl, ◌⊎◌, inl, inr, ◌↔◌, String, List, [], ◌∷◌, ◌++◌, Option, none, some,
  arith, Elem, Elem-append, Option-cases,
}
use distributed_container_or.Model.Storage.{RoleBinding}
use distributed_container_or.Roles.{visit, visit_all, own_roles}

-- The collected roles are those found before and those of the visits.
pub visit_all-Elem :
    (f : String → Option (List String)) (ps found roles : List String) (r : String)
    → visit_all f ps found ≡ some roles
    → Elem r roles ↔ (
        Elem r found
        ⊎ ((p : String) × (qs : List String) × Elem p ps × (f p ≡ some qs) × Elem r qs))
unfolding visit_all
visit_all-Elem f [] found roles r e = (
  λ m. inl (ground (arith, m)),
  λ d. elim d [ inl m ↦ ground (arith, m) | inr (p, qs, k, h, m) ↦ elim k [ ] ],
)
visit_all-Elem f (p ∷ ps) found roles r e = elim (Option-cases (f p)) [
  | inl h ↦ cc (h, e)
  | inr (qs, h) ↦
      let rest = visit_all-Elem f ps (found ++ qs) roles r (rw (h, visit_all) at e) in
      let both = Elem-append r found qs in
      (
        λ m. elim (rest.0 m) [
          | inl k ↦ elim (both.0 k) [ inl old ↦ inl old | inr new ↦ inr (p, qs, inl refl, h, new) ]
          | inr (q, rs, k, g, n) ↦ inr (q, rs, inr k, g, n)
        ],
        λ d. rest.1 (elim d [
          | inl old ↦ inl (both.1 (inl old))
          | inr (q, rs, inl same, g, n) ↦ inl (both.1 (inr (ground (arith, same, g, h, n))))
          | inr (q, rs, inr k, g, n) ↦ inr (q, rs, k, g, n)
        ]),
      )
]

pub visit_all_ends :
    (f : String → Option (List String)) (ps found : List String)
    → ((p : String) → Elem p ps → (qs : List String) × (f p ≡ some qs))
    → (roles : List String) × (visit_all f ps found ≡ some roles)
unfolding visit_all
visit_all_ends f [] found h = (found, refl)
visit_all_ends f (p ∷ ps) found h =
    let (qs, e) = h p (inl refl) in
    rw (e, visit_all) (visit_all_ends f ps (found ++ qs) (λ q m. h q (inr m)))

visit_all_stuck :
    (f : String → Option (List String)) (p : String) (ps found : List String)
    → Elem p ps
    → f p ≡ none
    → visit_all f ps found ≡ none
unfolding visit_all
visit_all_stuck f p [] found m e = elim m [ ]
visit_all_stuck f p (q ∷ qs) found (inl same) e = ground (arith, same, e)
visit_all_stuck f p (q ∷ qs) found (inr m) e = elim (Option-cases (f q)) [
  | inl h ↦ rw (h, visit_all)
  | inr (rs, h) ↦ rw (h, visit_all) (visit_all_stuck f p qs (found ++ rs) m e)
]

module _ (by : String → Option RoleBinding) where
  -- The binding of the first name inherits from that of the second, in any number of steps.
  pub data Inherits (m : String) : String → Type 0 where
    here : Inherits m m
    up :
        {n p : String} (b : RoleBinding)
        → by n ≡ some b
        → Elem p b.inherits
        → Inherits m p
        → Inherits m n

  -- A role of a binding that the first one inherits from.
  abbrev pub Holds : String → String → Type 0
  Holds n r =
      (m : String) × (b : RoleBinding) × Inherits m n × (by m ≡ some b) × Elem r (own_roles b)

  -- What ranks the names by the length of their inheritance.
  abbrev pub Ranks : (String → ℕ) → Type 0
  Ranks rank =
      (n p : String) (b : RoleBinding) → by n ≡ some b → Elem p b.inherits → rank p < rank n

  pub visit_ends :
      (rank : String → ℕ)
      → Ranks rank
      → (fuel : ℕ) (n : String) → rank n < fuel
      → (roles : List String) × (visit fuel by n ≡ some roles)
  unfolding visit
  visit_ends rank falls zero n h = elim h [ ]
  visit_ends rank falls (suc fuel) n h = elim (Option-cases (by n)) [
    | inl e ↦ ([], rw (e, visit))
    | inr (b, e) ↦
        rw (e, visit)
          (visit_all_ends (visit fuel by) b.inherits (own_roles b)
            (λ p m. visit_ends rank falls fuel p (omega (arith, falls n p b e m))))
  ]

  -- What a name holds is its binding's own, or what a name that it inherits from holds.
  Holds-step :
      (n r : String) (b : RoleBinding)
      → by n ≡ some b
      → Holds n r
      → Elem r (own_roles b) ⊎ ((p : String) × Elem p b.inherits × Holds p r)
  Holds-step n r b e (m, c, here, at_m, own) = inl (ground (arith, e, at_m, own))
  Holds-step n r b e (m, c, up {p = p} d found k path, at_m, own) =
      inr (p, ground (arith, e, found, k), (m, c, path, at_m, own))

  absent-Holds : (n r : String) → by n ≡ none → ¬ Holds n r
  absent-Holds n r e (m, c, here, at_m, own) = cc (e, at_m)
  absent-Holds n r e (m, c, up b found k path, at_m, own) = cc (e, found)

  visit_all_parts :
      (f : String → Option (List String)) (ps found roles : List String)
      → visit_all f ps found ≡ some roles
      → (p : String) → Elem p ps
      → (qs : List String) × (f p ≡ some qs)
  unfolding visit_all
  visit_all_parts f [] found roles e p m = elim m [ ]
  visit_all_parts f (q ∷ ps) found roles e p m = elim (Option-cases (f q)) [
    | inl h ↦ cc (h, e)
    | inr (rs, h) ↦ elim m [
      | inl same ↦ (rs, rw same h)
      | inr k ↦ visit_all_parts f ps (found ++ rs) roles (rw (h, visit_all) at e) p k
    ]
  ]

  -- A visit that returns finds exactly the roles that the name holds.
  pub visit-Holds :
      (fuel : ℕ) (n : String) (roles : List String) (r : String)
      → visit fuel by n ≡ some roles
      → Elem r roles ↔ Holds n r
  unfolding visit
  visit-Holds zero n roles r e = cc e
  visit-Holds (suc fuel) n roles r e = elim (Option-cases (by n)) [
    | inl absent ↦ (
      λ m. let nothing : Elem r [] = ground (arith, absent, e, m) in elim nothing [ ],
      λ h. absurd (absent-Holds n r absent h),
    )
    | inr (b, found) ↦
        let returned = rw (found, visit) at e in
        let parents = visit_all-Elem (visit fuel by) b.inherits (own_roles b) roles r returned in
        (
          λ m. elim (parents.0 m) [
            | inl own ↦ (n, b, here, found, own)
            | inr (p, qs, k, g, q) ↦
                let (m', c, path, at_m, own) = (visit-Holds fuel p qs r g).0 q in
                (m', c, up b found k path, at_m, own)
          ],
          λ h. parents.1 (elim (Holds-step n r b found h) [
            | inl own ↦ inl own
            | inr (p, k, held) ↦
                let (qs, g) =
                  visit_all_parts (visit fuel by) b.inherits (own_roles b) roles returned p k in
                inr (p, qs, k, g, (visit-Holds fuel p qs r g).1 held)
          ]),
        )
  ]

  -- Where every name of a set has a binding that inherits from a name of the set again, so where
  -- bindings inherit in a circle, the visit of such a name does not return, however deep it goes.
  pub visit_circle :
      (P : String → Type 0)
      → ((n : String)
          → P n
          → (b : RoleBinding) × (p : String) × (by n ≡ some b) × Elem p b.inherits × P p)
      → (fuel : ℕ) (n : String) → P n
      → visit fuel by n ≡ none
  unfolding visit
  visit_circle P round zero n h = refl
  visit_circle P round (suc fuel) n h =
      let (b, p, e, m, k) = round n h in
      rw (e, visit)
        (visit_all_stuck (visit fuel by) p b.inherits (own_roles b) m
          (visit_circle P round fuel p k))
