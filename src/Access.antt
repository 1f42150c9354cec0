-- ===== src/Access.antt =====
-- internal/api/httpserver.go: who may call which endpoint, from `versionMiddleware` to
-- `requiredRoles`.
pub mod Rules
pub mod Duties
pub mod Merging
pub mod Gate
use Prim.Native.String.{◌++◌ as append}
use distributed_container_or.Base.{
  ℕ, String, Bool, true, false, not, ◌&&◌, ◌||◌, List, [], ◌∷◌, ◌++◌, str_eq, if◌then◌else◌, any,
  is_blank, trim_space, lower, cut_prefix, Option, none, some, Result, ok, err,
}
use distributed_container_or.Model.Floats.{Time}
use distributed_container_or.Network.{is_nil}
use distributed_container_or.Store.State.{Orchestrator, M}
use distributed_container_or.Roles.{effective_roles_for_subject}
use distributed_container_or.Auth.Keys.{KeyRing, Jwks}
use distributed_container_or.Auth.{Verifier, Principal, TokenLibrary, verify_bearer}
use distributed_container_or.Access.Rules.{required_roles}

pub record Request : Type 0 where
  pub method : String
  pub path : String
  pub authorization : String
  pub version : String
  -- The namespaces that the query and the header X-Namespace name.
  pub query_namespace : String
  pub header_namespace : String

-- The call of the handlers, with the principal if there is one; or the status of a refusal.
pub data Verdict : Type 0 where
  served : Option Principal → Verdict
  refused : ℕ → Verdict

abbrev pub normal : String → String
normal r = lower (trim_space r)

unfoldable pub request_namespace : Request → String
unfolding trim_space
request_namespace r =
    let query = trim_space r.query_namespace in
    let header = trim_space r.header_namespace in
    if not (str_eq query "") then query else if not (str_eq header "") then header else "default"

-- One loop of `mergeRoles`: what is new among the roles goes to the end of the output.
unfoldable pub merge_into : List String → List String → List String
unfolding trim_space
merge_into out [] = out
merge_into out (r ∷ rs) =
    if str_eq (normal r) "" || any (λ o. str_eq (normal o) (normal r)) out
    then merge_into out rs
    else merge_into (out ++ r ∷ []) rs

unfoldable pub merge_roles : List String → List String → List String
unfolding merge_into
merge_roles existing incoming = merge_into (merge_into [] existing) incoming

unfoldable pub is_authorized : Principal → String → String → Bool
unfolding required_roles
is_authorized p method path =
    let required = required_roles method path in
    if is_nil required
    then true
    else any (λ role. any (λ r. str_eq (normal r) role) p.roles) required

abbrev pub is_open : String → Bool
is_open path = str_eq path "/healthz" || str_eq path "/metrics"

unfoldable pub versioned_path : String → String
versioned_path path = elim (cut_prefix path "/api/v1/") [
  | some rest ↦ append "/v1/" rest
  | none ↦ if str_eq path "/api/v1" then "/v1" else path
]

abbrev pub is_version : String → Bool
is_version given = let v = trim_space given in str_eq v "" || str_eq v "v1" || str_eq v "1"

unfoldable pub authorization_middleware : Request → Option Principal → Verdict
unfolding is_authorized
authorization_middleware r principal =
    if is_open r.path then Verdict.served principal else elim principal [
      | none ↦ Verdict.refused 401
      | some p ↦
          if is_authorized p r.method r.path then Verdict.served (some p) else Verdict.refused 403
    ]

-- The principal with the roles that are bound to its subject.
abbrev pub with_bound : Principal → List String → Principal
with_bound p bound = if is_nil bound then p else record p { roles = merge_roles p.roles bound }

module _ {F W : Type 0} (library : TokenLibrary) (jwks : Jwks W) (now : Time) (v : Verifier)
    (depth : ℕ) where
  -- The roles that are bound; `none` where the search for them does not return.
  unfoldable pub bound_roles : Request → Principal → Orchestrator F → Option (List String)
  unfolding effective_roles_for_subject request_namespace
  bound_roles r p o =
      if is_blank p.subject
      then some []
      else elim (effective_roles_for_subject depth p.subject (request_namespace r) o).0 [
        | ok found ↦ found
        | err _ ↦ some []
      ]

  unfoldable pub auth_middleware :
      Request → Orchestrator F → KeyRing × W → Option Verdict × (KeyRing × W)
  auth_middleware r o s =
      if is_open r.path
      then (some (authorization_middleware r none), s)
      else (let (found, s') = verify_bearer library jwks now v r.authorization s in
          elim found [
            | err _ ↦ (some (Verdict.refused 401), s')
            | ok p ↦ elim (bound_roles r p o) [
              | none ↦ (none, s')
              | some bound ↦ (some (authorization_middleware r (some (with_bound p bound))), s')
            ]
          ])

  -- The whole chain around the handlers.
  unfoldable pub handler : Request → Orchestrator F → KeyRing × W → Option Verdict × (KeyRing × W)
  unfolding auth_middleware versioned_path trim_space
  handler given o s =
      let r : Request = record given { path = versioned_path given.path } in
      if is_version r.version then auth_middleware r o s else (some (Verdict.refused 400), s)
