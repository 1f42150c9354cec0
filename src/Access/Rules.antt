-- ===== src/Access/Rules.antt =====
-- `requiredRoles` of internal/api/httpserver.go.
use distributed_container_or.Base.{
  String, Bool, true, false, ◌&&◌, ◌||◌, List, [], ◌∷◌, str_eq, if◌then◌else◌, cut_prefix, none,
  some,
}

abbrev pub begins_with : String → String → Bool
begins_with s p = elim (cut_prefix s p) [ some _ ↦ true | none ↦ false ]

-- `strings.HasSuffix`.
unfoldable pub ends_with : String → String → Bool
ends_with String.[] t = str_eq String.[] t
ends_with (String.◌∷◌ c s) t = str_eq (String.◌∷◌ c s) t || ends_with s t

-- `strings.Contains`.
unfoldable pub contains : String → String → Bool
contains String.[] t = begins_with String.[] t
contains (String.◌∷◌ c s) t = begins_with (String.◌∷◌ c s) t || contains s t

abbrev pub readers : List String
readers = "viewer" ∷ "operator" ∷ "admin" ∷ []

abbrev pub operators : List String
operators = "operator" ∷ "admin" ∷ []

abbrev pub admins : List String
admins = "admin" ∷ []

abbrev pub is_one_of : String → List String → Bool
is_one_of path [] = false
is_one_of path (p ∷ ps) = str_eq path p || is_one_of path ps

abbrev tables : List String
tables = "/v1/namespaces" ∷ "/v1/quotas" ∷ "/v1/secrets" ∷ []

abbrev more_tables : List String
more_tables =
    "/v1/persistent-volumes" ∷ "/v1/persistent-volume-claims" ∷ "/v1/network-policies" ∷ "/v1/jobs"
    ∷ "/v1/cronjobs" ∷ "/v1/rbac/rolebindings" ∷ []

-- The method, the test of the path, and the roles; the first rule that holds counts.
abbrev pub Rule : Type 0
Rule = String × Bool × List String

unfoldable pub rules : String → List Rule
unfolding cut_prefix ends_with contains
rules path =
    (
      "GET",
      is_one_of path ("/v1/cluster" ∷ "/v1/deployments" ∷ [])
          || begins_with path "/v1/workers/"
          || begins_with path "/v1/services"
          || begins_with path "/v1/dns/"
          || begins_with path "/v1/network/services/",
      readers,
    )
    ∷ ("GET", is_one_of path tables, readers)
    ∷ ("GET", is_one_of path more_tables, readers)
    ∷ ("POST", is_one_of path tables, operators)
    ∷ ("POST", is_one_of path more_tables, operators)
    ∷ ("POST", str_eq path "/v1/recovery/run", admins)
    ∷ ("GET", is_one_of path ("/v1/metrics/prometheus" ∷ "/v1/health/nodes/trends" ∷ []), readers)
    ∷ ("POST", ends_with path "/drain", operators)
    ∷ ("POST", ends_with path "/remove", admins)
    ∷ ("POST", str_eq path "/v1/services", operators)
    ∷ ("GET", str_eq path "/v1/autoscalers", readers)
    ∷ ("POST", is_one_of path ("/v1/autoscalers" ∷ "/v1/metrics/deployments" ∷ []), operators)
    ∷ ("DELETE", begins_with path "/v1/autoscalers/", admins)
    ∷ ("PUT", begins_with path "/v1/deployments/", operators)
    ∷ ("POST", ends_with path "/rollback", operators)
    ∷ ("GET", is_one_of path ("/v1/events" ∷ "/v1/events/stream" ∷ []), readers)
    ∷ (
      "POST",
      is_one_of path ("/v1/deployments" ∷ "/v1/nodes/register" ∷ [])
          || contains path "/heartbeat"
          || contains path "/status",
      operators,
    )
    ∷ ("DELETE", begins_with path "/v1/deployments/", admins)
    ∷ []

unfoldable pub first_rule : String → List Rule → List String
first_rule method [] = admins
first_rule method ((m, holds, roles) ∷ rs) =
    if str_eq method m && holds then roles else first_rule method rs

unfoldable pub required_roles : String → String → List String
unfolding first_rule rules
required_roles method path = first_rule method (rules path)
