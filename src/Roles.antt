-- ===== src/Roles.antt =====
-- internal/service/features.go: role bindings and the roles that a subject has by them.
pub mod Inheritance
pub mod Granted
pub mod Scope
use distributed_container_or.Base.{
  ℕ, zero, suc, String, Bool, true, false, not, List, [], ◌∷◌, ◌++◌, map, Option, none, some,
  str_eq, str_lt, if◌then◌else◌, keep, is_blank, trim_space, lower, equal_fold, Result, ok, err,
  Error, message,
}
use distributed_container_or.Model.Floats.{Time}
use distributed_container_or.Model.Storage.{RoleBinding}
use distributed_container_or.Network.{is_nil}
use distributed_container_or.Services.Collecting.{last_where}
use distributed_container_or.Store.State.{Orchestrator, M, ◌>>=◌, ◌>>◌, pure, fail}
use distributed_container_or.Store.Access.{
  upsert_role_binding, get_role_binding, list_role_bindings,
}

-- `byName`: of two bindings with one name the later counts.
unfoldable pub by_name : List RoleBinding → String → Option RoleBinding
unfolding last_where
by_name all name = last_where (λ b. str_eq b.name name) all

-- The roles of one binding, as they go into the set.
unfoldable pub own_roles : RoleBinding → List String
own_roles b = map (λ r. lower (trim_space r)) (keep (λ r. not (is_blank r)) b.roles)

-- The loop over the parents; `none` where a visit does not return.
unfoldable pub visit_all :
    (String → Option (List String)) → List String → List String → Option (List String)
visit_all visit [] found = some found
visit_all visit (p ∷ ps) found = elim (visit p) [
  | none ↦ none
  | some roles ↦ visit_all visit ps (found ++ roles)
]

-- `visit`, with the depth of the recursion as fuel; `none` where it is not enough.
unfoldable pub visit : ℕ → (String → Option RoleBinding) → String → Option (List String)
unfolding visit_all own_roles
visit zero by name = none
visit (suc fuel) by name = elim (by name) [
  | none ↦ some []
  | some b ↦ visit_all (visit fuel by) b.inherits (own_roles b)
]

-- A set of texts is kept as its sorted list.
unfoldable pub add_role : String → List String → List String
add_role r [] = r ∷ []
add_role r (s ∷ ss) =
    if str_eq r s then s ∷ ss else if str_lt r s then r ∷ s ∷ ss else s ∷ add_role r ss

unfoldable pub role_set : List String → List String
unfolding add_role
role_set [] = []
role_set (r ∷ rs) = add_role r (role_set rs)

abbrev pub names : List RoleBinding → List String
names = map (λ b. b.name)

abbrev pub is_bound_to : String → RoleBinding → Bool
is_bound_to subject b = equal_fold (trim_space b.subject) (trim_space subject)

-- The roles under all the bindings that apply.
unfoldable pub roles_under : ℕ → String → List RoleBinding → Option (List String)
unfolding visit_all visit by_name role_set
roles_under fuel subject all =
    elim (visit_all (visit fuel (by_name all)) (names (keep (is_bound_to subject) all)) []) [
      | none ↦ none
      | some roles ↦ some (role_set roles)
    ]

module _ {F : Type 0} where
  unfoldable pub applying : String → M F (List RoleBinding)
  unfolding list_role_bindings
  applying namespace = do
    all ← list_role_bindings ""
    if is_blank namespace
        then pure all
        else (do items ← list_role_bindings namespace; pure (all ++ items))

  unfoldable pub effective_roles_for_subject : ℕ → String → String → M F (Option (List String))
  unfolding applying roles_under
  effective_roles_for_subject fuel subject namespace = do
    all ← applying namespace
    pure (roles_under fuel subject all)

  unfoldable pub upsert_binding : Time → RoleBinding → M F RoleBinding
  unfolding upsert_role_binding get_role_binding
  upsert_binding now b =
      if is_blank b.name
      then fail (message "role binding name is required")
      else if is_blank b.subject
      then fail (message "role binding subject is required")
      else if is_nil b.roles
      then fail (message "role binding roles are required")
      else (upsert_role_binding now b >> get_role_binding b.namespace b.name)
