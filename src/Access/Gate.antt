-- ===== src/Access/Gate.antt =====
-- What a request that reaches the handlers has shown.
use distributed_container_or.Base.{
  ℕ, ◌≡◌, refl, sym, subst, ◌⊎◌, inl, inr, String, true, List, Elem, Option, none, some,
  Option-cases, ok, Result-cases, Bool-cases,
}
use distributed_container_or.Model.Floats.{Time}
use distributed_container_or.Network.{is_nil}
use distributed_container_or.Store.State.{Orchestrator}
use distributed_container_or.Auth.Keys.{KeyRing, Jwks}
use distributed_container_or.Auth.{Verifier, Principal, TokenLibrary, verify_bearer}
use distributed_container_or.Access.Rules.{required_roles}
use distributed_container_or.Access.{
  Request, Verdict, normal, is_open, is_version, is_authorized, versioned_path, with_bound,
  authorization_middleware, bound_roles, auth_middleware, handler,
}
use distributed_container_or.Access.Duties.{is_authorized_lem}
use distributed_container_or.Access.Merging.{merge_roles_lem}

with_bound-Elem :
    (p : Principal) (bound : List String) (r : String)
    → Elem r (with_bound p bound).roles
    → Elem r p.roles ⊎ Elem r bound
with_bound-Elem p bound r m = elim (Bool-cases (is_nil bound)) [
  | inl none_bound ↦ inl (rw none_bound at m)
  | inr some_bound ↦ (merge_roles_lem p.roles bound r).0 (rw some_bound at m)
]

module _ {F W : Type 0} (library : TokenLibrary) (jwks : Jwks W) (now : Time) (v : Verifier)
    (depth : ℕ) (o : Orchestrator F) (s : KeyRing × W) where
  -- The header of the request gave a principal, and it, or a binding of its subject, has a role that
  -- the endpoint asks for.
  abbrev pub IsEntitled : Request → Type 0
  IsEntitled r =
      (p : Principal) × (bound : List String) × (role : String) × ((verify_bearer library jwks now v
          r.authorization s).0
        ≡ ok p)
      × (bound_roles library jwks now v depth r p o ≡ some bound)
      × (Elem role p.roles ⊎ Elem role bound)
      × Elem (normal role) (required_roles r.method r.path)

  abbrev pub Passed : Request → Option Verdict → Type 0
  Passed r (some (Verdict.served p)) = (is_open r.path ≡ true) ⊎ IsEntitled r
  Passed r (some (Verdict.refused status)) = Unit
  Passed r none = Unit

  decided :
      (r : Request) (p : Principal) (bound : List String)
      → (verify_bearer library jwks now v r.authorization s).0 ≡ ok p
      → bound_roles library jwks now v depth r p o ≡ some bound
      → Passed r (some (authorization_middleware r (some (with_bound p bound))))
  unfolding authorization_middleware
  decided r p bound known found =
      let q = with_bound p bound in
      elim (Bool-cases (is_open r.path)) [
        | inl open_path ↦ rw open_path (inl open_path)
        | inr closed ↦ elim (Bool-cases (is_authorized q r.method r.path)) [
          | inl allowed ↦
              let (role, asked, (held, m, same)) =
                (is_authorized_lem q r.method r.path).0.0 allowed in
              let through : authorization_middleware r (some q) ≡ Verdict.served (some q) =
                rw (closed, allowed, authorization_middleware) refl in
              let entitled : IsEntitled r = (
                p,
                bound,
                held,
                known,
                found,
                with_bound-Elem p bound held m,
                subst (λ k. Elem k (required_roles r.method r.path)) (sym same) asked,
              ) in
              subst (λ d. Passed r (some d)) (sym through) (inr entitled)
          | inr denied ↦
              let through : authorization_middleware r (some q) ≡ Verdict.refused 403 =
                rw (closed, denied, authorization_middleware) refl in
              subst (λ d. Passed r (some d)) (sym through) tt
        ]
      ]

  opened : (r : Request) → is_open r.path ≡ true → Passed r (some (authorization_middleware r none))
  unfolding authorization_middleware
  opened r e = rw e (inl e)

  auth_middleware-Passed :
      (r : Request) → Passed r (auth_middleware library jwks now v depth r o s).0
  unfolding auth_middleware
  auth_middleware-Passed r = elim (Bool-cases (is_open r.path)) [
    | inl open_path ↦
        let through : (auth_middleware library jwks now v depth r o s).0
            ≡ some (authorization_middleware r none) =
          rw (open_path, auth_middleware) refl in
        subst (Passed r) (sym through) (opened r open_path)
    | inr closed ↦ elim (Result-cases (verify_bearer library jwks now v r.authorization s).0) [
      | inr (x, unknown) ↦
          let through : (auth_middleware library jwks now v depth r o s).0
              ≡ some (Verdict.refused 401) =
            rw (closed, unknown, auth_middleware) refl in
          subst (Passed r) (sym through) tt
      | inl (p, known) ↦ elim (Option-cases (bound_roles library jwks now v depth r p o)) [
        | inl stuck ↦
            let through : (auth_middleware library jwks now v depth r o s).0 ≡ none =
              rw (closed, known, stuck, auth_middleware) refl in
            subst (Passed r) (sym through) tt
        | inr (bound, found) ↦
            let through : (auth_middleware library jwks now v depth r o s).0
                ≡ some (authorization_middleware r (some (with_bound p bound))) =
              rw (closed, known, found, auth_middleware) refl in
            subst (Passed r) (sym through) (decided r p bound known found)
      ]
    ]
  ]

  -- A request that reaches the handlers asks for the health or the metrics, or its header gave a
  -- principal of which some role, of the token or of a binding of the subject, is among the roles that
  -- its method and its path, without the prefix of the version, ask for.
  pub handler-Passed :
      (r : Request)
      → Passed
          (record r { path = versioned_path r.path })
          (handler library jwks now v depth r o s).0
  unfolding handler
  handler-Passed r = elim (Bool-cases (is_version r.version)) [
    | inl ours ↦ rw ours (auth_middleware-Passed (record r { path = versioned_path r.path }))
    | inr other ↦ rw other tt
  ]
