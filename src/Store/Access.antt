-- ===== src/Store/Access.antt =====
-- internal/store/store.go: role bindings.
use Prim.Native.String.{◌++◌ as append}
use distributed_container_or.Base.{String, List, if◌then◌else◌, is_blank}
use distributed_container_or.Model.Floats.{Time}
use distributed_container_or.Model.Storage.{RoleBinding}
use distributed_container_or.Store.Table.{lookup, insert, values}
use distributed_container_or.Store.State.{M, ◌>>=◌, read, modify, or_not_found}
use distributed_container_or.Store.{stamped, with_prefix}

unfoldable pub role_binding_prefix : String → String
role_binding_prefix namespace = if is_blank namespace then "global:" else append namespace ":"

abbrev pub role_binding_key : String → String → String
role_binding_key namespace name = append (role_binding_prefix namespace) name

module _ {F : Type 0} where
  unfoldable pub upsert_role_binding : Time → RoleBinding → M F Unit
  unfolding role_binding_prefix
  upsert_role_binding now b = modify λ o. record o {
    role_bindings =
        insert (role_binding_key b.namespace b.name)
          (record b { created_at = stamped b.created_at now; updated_at = now }) o.role_bindings;
  }

  unfoldable pub get_role_binding : String → String → M F RoleBinding
  unfolding role_binding_prefix
  get_role_binding namespace name = do
    t ← read (λ o. o.role_bindings)
    or_not_found (lookup (role_binding_key namespace name) t)

  unfoldable pub list_role_bindings : String → M F (List RoleBinding)
  unfolding role_binding_prefix with_prefix
  list_role_bindings namespace =
      read λ o. values (with_prefix (role_binding_prefix namespace) o.role_bindings)
