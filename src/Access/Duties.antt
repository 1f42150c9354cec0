-- ===== src/Access/Duties.antt =====
-- What the rules of the endpoints ask of a principal.
use distributed_container_or.Base.{
  ◌≡◌, ◌≢◌, refl, sym, ◌∙◌, subst, ◌↔◌, inl, inr, String, Bool, true, false, ◌&&◌, List, [], ◌∷◌,
  Elem, All, arith, any, any-Elem, Elem-any, eq_iff, str_eq, Bool-cases,
}
use distributed_container_or.Network.{is_nil}
use distributed_container_or.Auth.{Principal}
use distributed_container_or.Access.Rules.{
  Rule, readers, operators, admins, rules, first_rule, required_roles,
}
use distributed_container_or.Access.{normal, is_authorized}

-- Administrators are always let in, viewers only to read, and deletions are for administrators alone.
pub record IsGraded (method : String) (roles : List String) : Type 0 where
  pub admin : Elem "admin" roles
  pub viewer : Elem "viewer" roles → method ≡ "GET"
  pub delete : method ≡ "DELETE" → roles ≡ admins

differ : (s t : String) → str_eq s t ≡ false → s ≢ t
differ s t e same = ground (arith, e, eq_iff s t, same)

reads : IsGraded "GET" readers
reads = record {
  admin = inr (inr (inl refl));
  viewer = λ _. refl;
  delete = λ e. elim (differ "GET" "DELETE" refl e) [ ];
}

operates : (method : String) → method ≢ "DELETE" → IsGraded method operators
operates method other = record {
  admin = inr (inl refl);
  viewer = λ m. elim m [
    | inl e ↦ elim (differ "viewer" "operator" refl e) [ ]
    | inr (inl e) ↦ elim (differ "viewer" "admin" refl e) [ ]
    | inr (inr n) ↦ elim n [ ]
  ];
  delete = λ e. elim (other e) [ ];
}

administers : (method : String) → IsGraded method admins
administers method = record {
  admin = inl refl;
  viewer = λ m. elim m [ inl e ↦ elim (differ "viewer" "admin" refl e) [ ] | inr n ↦ elim n [ ] ];
  delete = λ _. refl;
}

posts : IsGraded "POST" operators
posts = operates "POST" (differ "POST" "DELETE" refl)

rules-IsGraded : (path : String) → All (λ (r : Rule). IsGraded r.0 r.2) (rules path)
unfolding rules
rules-IsGraded path = (
  reads,
  (
    reads,
    (
      reads,
      (
        posts,
        (
          posts,
          (
            administers "POST",
            (
              reads,
              (
                posts,
                (
                  administers "POST",
                  (
                    posts,
                    (
                      reads,
                      (
                        posts,
                        (
                          administers "DELETE",
                          (
                            operates "PUT" (differ "PUT" "DELETE" refl),
                            (posts, (reads, (posts, (administers "DELETE", tt)))),
                          ),
                        ),
                      ),
                    ),
                  ),
                ),
              ),
            ),
          ),
        ),
      ),
    ),
  ),
)

first_rule-IsGraded :
    (method : String) (rs : List Rule)
    → All (λ (r : Rule). IsGraded r.0 r.2) rs
    → IsGraded method (first_rule method rs)
unfolding first_rule
first_rule-IsGraded method [] a = administers method
first_rule-IsGraded method ((m, holds, roles) ∷ rs) (g, a) =
    elim (Bool-cases (str_eq method m && holds)) [
      | inl hit ↦
          rw hit (subst (λ k. IsGraded k roles) (sym ((eq_iff method m).0 (ground (arith, hit)))) g)
      | inr miss ↦ rw miss (first_rule-IsGraded method rs a)
    ]

required_roles-IsGraded : (method path : String) → IsGraded method (required_roles method path)
unfolding required_roles
required_roles-IsGraded method path = first_rule-IsGraded method (rules path) (rules-IsGraded path)

nonempty : {A : Type 0} (x : A) (xs : List A) → Elem x xs → is_nil xs ≡ false
nonempty x [] m = elim m [ ]
nonempty x (y ∷ ys) m = refl

module _ (p : Principal) (method path : String) where
  abbrev has_role : String → Bool
  has_role role = any (λ r. str_eq (normal r) role) p.roles

  authorized_by : is_authorized p method path ≡ any has_role (required_roles method path)
  unfolding is_authorized
  authorized_by =
      rw (nonempty "admin" (required_roles method path) (required_roles-IsGraded method path).admin)
        refl

  -- A role of the principal, as it is compared.
  abbrev pub Holds : String → Type 0
  Holds role = (r : String) × Elem r p.roles × (normal r ≡ role)

  has_role_iff : (role : String) → has_role role ≡ true ↔ Holds role
  has_role_iff role = (
    λ e.
        let (r, m, same) = any-Elem (λ r. str_eq (normal r) role) p.roles e in
        (r, m, (eq_iff (normal r) role).0 same),
    λ (r, m, same).
        Elem-any (λ r. str_eq (normal r) role) r p.roles m ((eq_iff (normal r) role).1 same),
  )

  -- A principal is let in exactly where one of its roles is among those required. These always have
  -- the administrator, have the viewer only for reading, and are the administrator alone for
  -- deletions.
  pub is_authorized_lem :
      (is_authorized p method path ≡ true
        ↔ ((role : String) × Elem role (required_roles method path) × Holds role))
      × IsGraded method (required_roles method path)
  is_authorized_lem = (
    (
      λ e.
          let (role, m, held) =
            any-Elem has_role (required_roles method path) (sym authorized_by ∙ e) in
          (role, m, (has_role_iff role).0 held),
      λ (role, m, held).
          authorized_by
          ∙ Elem-any has_role role (required_roles method path) m ((has_role_iff role).1 held),
    ),
    required_roles-IsGraded method path,
  )
