-- ===== src/Roles/Granted.antt =====
-- The roles that a subject has under the bindings that apply.
use distributed_container_or.Base.{
  ℕ, ◌<◌, ◌≡◌, refl, ◌⊎◌, inl, inr, ◌↔◌, String, true, List, [], ◌∷◌, some, subst, arith, Elem,
  Elem-keep, keep-Elem, keep, eq_iff,
}
use distributed_container_or.Model.Storage.{RoleBinding}
use distributed_container_or.Roles.{
  by_name, visit, add_role, role_set, names, is_bound_to, roles_under,
}
use distributed_container_or.Roles.Inheritance.{
  Holds, Ranks, visit_all-Elem, visit_all_ends, visit_ends, visit-Holds,
}

Elem-add_role : (r s : String) (ss : List String) → Elem r (add_role s ss) ↔ ((r ≡ s) ⊎ Elem r ss)
unfolding add_role
Elem-add_role r s [] = (λ m. ground (arith, m), λ m. ground (arith, m))
Elem-add_role r s (t ∷ ss) = (
  λ m. ground (arith, m, eq_iff s t, (Elem-add_role r s ss).0),
  λ m. ground (arith, m, eq_iff s t, (Elem-add_role r s ss).1),
)

Elem-role_set : (r : String) (rs : List String) → Elem r (role_set rs) ↔ Elem r rs
unfolding role_set
Elem-role_set r [] = (λ m. m, λ m. m)
Elem-role_set r (s ∷ rs) =
    let head = Elem-add_role r s (role_set rs) in
    let rest = Elem-role_set r rs in
    (
      λ m. elim (head.0 m) [ inl e ↦ inl e | inr k ↦ inr (rest.0 k) ],
      λ m. head.1 (elim m [ inl e ↦ inl e | inr k ↦ inr (rest.1 k) ]),
    )

Elem-names :
    (n : String) (bs : List RoleBinding)
    → Elem n (names bs) ↔ ((b : RoleBinding) × Elem b bs × (n ≡ b.name))
Elem-names n [] = (λ m. elim m [ ], λ (b, m, e). elim m [ ])
Elem-names n (b ∷ bs) = (
  λ m. elim m [
    | inl e ↦ (b, inl refl, e)
    | inr k ↦ let (c, l, e) = (Elem-names n bs).0 k in (c, inr l, e)
  ],
  λ (c, m, e). elim m [
    | inl same ↦ inl (ground (arith, same, e))
    | inr l ↦ inr ((Elem-names n bs).1 (c, l, e))
  ],
)

-- Some binding names the subject and holds the role, by itself or by inheritance.
abbrev pub Granted : List RoleBinding → String → String → Type 0
Granted all subject r =
    (b : RoleBinding) × Elem b all × (is_bound_to subject b ≡ true) × Holds (by_name all) b.name r

-- Where a rank falls along the inheritance and the depth allowed is above every rank, the roles of a
-- subject are found, and they are those of the bindings of the subject and of all that these inherit
-- from, through any number of steps.
pub roles_under_lem :
    (rank : String → ℕ) (all : List RoleBinding) (subject : String) (fuel : ℕ)
    → Ranks (by_name all) rank
    → ((n : String) → rank n < fuel)
    → (roles : List String) × (roles_under fuel subject all ≡ some roles)
      × ((r : String) → Elem r roles ↔ Granted all subject r)
unfolding roles_under
roles_under_lem rank all subject fuel falls deep =
    let by = by_name all in
    let bound = keep (is_bound_to subject) all in
    let (found, e) =
      visit_all_ends (visit fuel by) (names bound) []
        (λ p m. visit_ends by rank falls fuel p (deep p)) in
    (
      role_set found,
      rw (e, roles_under),
      λ r.
          let set = Elem-role_set r found in
          let all_of = visit_all-Elem (visit fuel by) (names bound) [] found r e in
          (
            λ m. elim (all_of.0 (set.0 m)) [
              | inl none_yet ↦ elim none_yet [ ]
              | inr (p, qs, k, g, q) ↦
                  let (b, l, same) = (Elem-names p bound).0 k in
                  let (at_all, yes_bound) = Elem-keep (is_bound_to subject) b all l in
                  (
                    b,
                    at_all,
                    yes_bound,
                    subst (λ n. Holds by n r) same ((visit-Holds by fuel p qs r g).0 q),
                  )
            ],
            λ (b, m, bound_to, held).
                let (qs, g) = visit_ends by rank falls fuel b.name (deep b.name) in
                let k = (Elem-names b.name bound).1 (b, keep-Elem _ b all m bound_to, refl) in
                set.1
                  (all_of.1 (inr (b.name, qs, k, g, (visit-Holds by fuel b.name qs r g).1 held))),
          ),
    )
