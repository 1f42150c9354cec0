-- ===== src/Samples/Gates.antt =====
-- The theorems on who may call what, at concrete requests.
use distributed_container_or.Store.Table.{values}
use distributed_container_or.Base.{
  lower, ◌*ℤ◌, mul64, ◌+ℤ◌, wrap64, add64, equal_fold, cut_prefix, String, true, ◌≡◌, refl, ◌↔◌, [],
  ◌∷◌, Elem, some,
}
use distributed_container_or.Auth.{verify_bearer, Principal}
use distributed_container_or.Access.Rules.{required_roles}
use distributed_container_or.Access.{
  authorization_middleware, bound_roles, Request, Verdict, is_authorized, versioned_path, handler,
}
use distributed_container_or.Access.Duties.{IsGraded, Holds, is_authorized_lem}
use distributed_container_or.Access.Gate.{Passed, handler-Passed}
use distributed_container_or.Samples.{empty}
use distributed_container_or.Samples.Tokens.{one_token, provider, verifier, no_keys}

abbrev bob : Principal
bob = record { subject = "bob"; roles = " Viewer" ∷ []; source = "jwt" }

is_authorized_lem_example :
    (is_authorized bob "DELETE" "/v1/deployments/d" ≡ true ↔ (
      (role : String) × Elem role (required_roles "DELETE" "/v1/deployments/d")
      × Holds bob "DELETE" "/v1/deployments/d" role))
    × IsGraded "DELETE" (required_roles "DELETE" "/v1/deployments/d")
is_authorized_lem_example = is_authorized_lem bob "DELETE" "/v1/deployments/d"

abbrev removal : Request
removal = record {
  method = "POST";
  path = "/api/v1/nodes/n1/remove";
  authorization = "Bearer t1";
  version = "v1";
  query_namespace = "";
  header_namespace = "shop";
}

handler-Passed_example :
    Passed one_token provider 9 verifier 3 empty
      (no_keys, tt)
      (record removal { path = versioned_path removal.path })
      (handler one_token provider 9 verifier 3 removal empty (no_keys, tt)).0
handler-Passed_example = handler-Passed one_token provider 9 verifier 3 empty (no_keys, tt) removal

-- Ada is an administrator.
ada_removes_test :
    (handler one_token provider 9 verifier 3 removal empty (no_keys, tt)).0
    ≡ some
        (Verdict.served (some (record { subject = "ada"; roles = "admin" ∷ []; source = "oidc" })))
unfolding handler cut_prefix verify_bearer equal_fold add64 wrap64 ◌+ℤ◌ mul64 ◌*ℤ◌ bound_roles
    values authorization_middleware lower
ada_removes_test = refl
