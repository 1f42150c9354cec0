-- ===== src/Auth/Roles.antt =====
-- The roles that a token's claims give: `extractRoles`, and the role of a token that names none.
use distributed_container_or.Base.{
  ◌≡◌, refl, sym, ◌↔◌, ◌⊎◌, inl, inr, String, false, List, [], ◌∷◌, Elem, Option, none, some,
  Bool-cases, is_blank, trim_space,
}
use distributed_container_or.Auth.Claims.{
  Claim, ClaimSet, text_of, roles_of_texts, texts_in, roles_of, extract_roles,
}
use distributed_container_or.Auth.{Principal, or_viewer, principal}

-- The claim is the text or lists it.
abbrev pub Says : Claim → String → Type 0
Says (Claim.text t) s = t ≡ s
Says (Claim.items is) s = Elem (some s) is
Says (Claim.texts ss) s = Elem s ss
Says Claim.other s = ⊥

-- Some text that is not blank is the role with spaces around it.
abbrev Trims : (String → Type 0) → String → Type 0
Trims P r = (s : String) × P s × (is_blank s ≡ false) × (r ≡ trim_space s)

-- The claim "roles" names the role.
abbrev pub Names : ClaimSet → String → Type 0
Names claims r = (s : String) × Says (claims "roles") s × (is_blank s ≡ false) × (r ≡ trim_space s)

-- Whom the claims stand for: their subject, with the roles that they name, or as a viewer where they
-- name none.
pub record IsNamed (claims : ClaimSet) (kind : String) (p : Principal) : Type 0 where
  pub subject : p.subject ≡ text_of (claims "sub")
  pub source : p.source ≡ kind
  pub roles :
      (r : String)
      → Elem r p.roles ↔ (Names claims r ⊎ ((r ≡ "viewer") × ((s : String) → ¬ Names claims s)))

roles_of_texts-Trims :
    (r : String) (ss : List String) → Elem r (roles_of_texts ss) → Trims (λ s. Elem s ss) r
unfolding roles_of_texts
roles_of_texts-Trims r [] m = elim m [ ]
roles_of_texts-Trims r (s ∷ ss) m = elim (Bool-cases (is_blank s)) [
  | inl blank ↦
      let (t, there, full, same) = roles_of_texts-Trims r ss (rw blank at m) in
      (t, inr there, full, same)
  | inr full ↦
      let here : (r ≡ trim_space s) ⊎ Elem r (roles_of_texts ss) = rw full at m in
      elim here [
        | inl same ↦ (s, inl refl, full, same)
        | inr later ↦
            let (t, there, filled, same) = roles_of_texts-Trims r ss later in
            (t, inr there, filled, same)
      ]
]

Trims-roles_of_texts :
    (r s : String) (ss : List String)
    → Elem s ss
    → is_blank s ≡ false
    → r ≡ trim_space s
    → Elem r (roles_of_texts ss)
unfolding roles_of_texts
Trims-roles_of_texts r s [] m full same = elim m [ ]
Trims-roles_of_texts r s (t ∷ ss) (inl here) full same = rw (← here, full) (inl same)
Trims-roles_of_texts r s (t ∷ ss) (inr later) full same = elim (Bool-cases (is_blank t)) [
  | inl blank ↦ rw blank (Trims-roles_of_texts r s ss later full same)
  | inr filled ↦ rw filled (inr (Trims-roles_of_texts r s ss later full same))
]

texts_in-Elem : (s : String) (is : List (Option String)) → Elem s (texts_in is) ↔ Elem (some s) is
unfolding texts_in
texts_in-Elem s [] = (λ m. m, λ m. m)
texts_in-Elem s (none ∷ is) =
    let rest = texts_in-Elem s is in
    (λ m. inr (rest.0 m), λ m. elim m [ inl e ↦ cc e | inr later ↦ rest.1 later ])
texts_in-Elem s (some t ∷ is) =
    let rest = texts_in-Elem s is in
    (
      λ m. elim m [ inl e ↦ inl (cc e) | inr later ↦ inr (rest.0 later) ],
      λ m. elim m [ inl e ↦ inl (cc e) | inr later ↦ inr (rest.1 later) ],
    )

roles_of-Trims : (r : String) (c : Claim) → Elem r (roles_of c) ↔ Trims (Says c) r
unfolding roles_of
roles_of-Trims r (Claim.text t) = (
  λ m.
      let (s, there, full, same) = roles_of_texts-Trims r (t ∷ []) m in
      (s, elim there [ inl e ↦ sym e | inr n ↦ elim n [ ] ], full, same),
  λ (s, there, full, same). Trims-roles_of_texts r s (t ∷ []) (inl (sym there)) full same,
)
roles_of-Trims r (Claim.items is) = (
  λ m.
      let (s, there, full, same) = roles_of_texts-Trims r (texts_in is) m in
      (s, (texts_in-Elem s is).0 there, full, same),
  λ (s, there, full, same).
      Trims-roles_of_texts r s (texts_in is) ((texts_in-Elem s is).1 there) full same,
)
roles_of-Trims r (Claim.texts ss) = (
  roles_of_texts-Trims r ss,
  λ (s, there, full, same). Trims-roles_of_texts r s ss there full same,
)
roles_of-Trims r Claim.other = (λ m. elim m [ ], λ (s, m, full, same). elim m [ ])

or_viewer-Elem :
    (r : String) (rs : List String)
    → Elem r (or_viewer rs) ↔ (Elem r rs ⊎ ((r ≡ "viewer") × ((s : String) → ¬ Elem s rs)))
or_viewer-Elem r [] = (
  λ m. elim m [ inl e ↦ inr (e, λ s n. elim n [ ]) | inr n ↦ elim n [ ] ],
  λ d. elim d [ inl n ↦ elim n [ ] | inr (e, none_there) ↦ inl e ],
)
or_viewer-Elem r (x ∷ rs) =
    (λ m. inl m, λ d. elim d [ inl m ↦ m | inr (e, none_there) ↦ absurd (none_there x (inl refl)) ])

pub principal-IsNamed :
    (claims : ClaimSet) (source : String) → IsNamed claims source (principal claims source)
unfolding extract_roles
principal-IsNamed claims source = record {
  subject = refl;
  source = refl;
  roles = λ r.
      let given = or_viewer-Elem r (extract_roles claims) in
      let names = λ (s : String). roles_of-Trims s (claims "roles") in
      (
        λ m. elim (given.0 m) [
          | inl e ↦ inl ((names r).0 e)
          | inr (e, bare) ↦ inr (e, λ s n. bare s ((names s).1 n))
        ],
        λ d. given.1 (elim d [
          | inl n ↦ inl ((names r).1 n)
          | inr (e, bare) ↦ inr (e, λ s m. bare s ((names s).0 m))
        ]),
      );
}
