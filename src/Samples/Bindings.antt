-- ===== src/Samples/Bindings.antt =====
-- The theorems on role bindings at concrete bindings.
use distributed_container_or.Base.{
  lower, is_blank, trim_space, equal_fold, ℕ, ◌≡◌, refl, inl, inr, ◌↔◌, String, List, [], ◌∷◌,
  Option, none, some, arith, Elem, ◌⊎◌, str_eq, if◌then◌else◌, eq_iff, Bool-cases, subst,
}
use distributed_container_or.Model.Storage.{RoleBinding}
use distributed_container_or.Roles.{by_name, visit, roles_under}
use distributed_container_or.Roles.Inheritance.{Ranks, visit_circle}
use distributed_container_or.Roles.Granted.{Granted, roles_under_lem}

abbrev binding : String → String → String → List String → RoleBinding
binding namespace name subject inherits = record {
  namespace = namespace;
  name = name;
  subject = subject;
  roles = " Viewer " ∷ [];
  inherits = inherits;
  created_at = 1;
  updated_at = 1;
}

abbrev ops : RoleBinding
ops = binding "" "ops" "ann" ("base" ∷ [])

abbrev base : RoleBinding
base = binding "" "base" "bob" []

abbrev bindings : List RoleBinding
bindings = ops ∷ base ∷ []

abbrev rank : String → ℕ
rank name = if str_eq name "ops" then 1 else 0

bindings-Ranks : Ranks (by_name bindings) rank
unfolding by_name
bindings-Ranks n p b e m = elim (Bool-cases (str_eq "base" n)) [
  | inl at_base ↦
      let same : b ≡ base = ground (arith, e, at_base) in
      elim (subst (λ c. Elem p c.inherits) same m) [ ]
  | inr elsewhere ↦ elim (Bool-cases (str_eq "ops" n)) [
    | inl at_ops ↦
        let same : b ≡ ops = ground (arith, e, elsewhere, at_ops) in
        elim (subst (λ c. Elem p c.inherits) same m) [
          | inl parent ↦ rw (parent, ← (eq_iff "ops" n).0 at_ops) (omega arith)
          | inr no_more ↦ elim no_more [ ]
        ]
    | inr unknown ↦
        let gone : ◌≡◌ {A = Option RoleBinding} none (some b) =
          ground (arith, e, elsewhere, unknown) in
        cc gone
  ]
]

roles_under_lem_example :
    (roles : List String) × (roles_under 3 "ann" bindings ≡ some roles)
    × ((r : String) → Elem r roles ↔ Granted bindings "ann" r)
roles_under_lem_example = roles_under_lem rank bindings "ann" 3 bindings-Ranks (λ n. ground arith)

roles_of_ann : roles_under 3 "ann" bindings ≡ some ("viewer" ∷ [])
unfolding roles_under equal_fold trim_space is_blank lower
roles_of_ann = refl

abbrev circle : List RoleBinding
circle = binding "" "a" "ann" ("b" ∷ []) ∷ binding "" "b" "bob" ("a" ∷ []) ∷ []

abbrev InCircle : String → Type 0
InCircle n = (n ≡ "a") ⊎ (n ≡ "b")

goes_round :
    (n : String)
    → InCircle n
    → (b : RoleBinding) × (p : String) × (by_name circle n ≡ some b)
      × Elem p b.inherits
      × InCircle p
unfolding by_name
goes_round n (inl e) = (binding "" "a" "ann" ("b" ∷ []), "b", rw e, inl refl, inr refl)
goes_round n (inr e) = (binding "" "b" "bob" ("a" ∷ []), "a", rw e, inl refl, inl refl)

visit_circle_example : visit 100 (by_name circle) "a" ≡ none
visit_circle_example = visit_circle (by_name circle) InCircle goes_round 100 "a" (inl refl)
