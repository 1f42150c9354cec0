-- ===== src/Store/Traffic.antt =====
-- internal/store/store.go: services, their endpoints, and the snapshot of the cluster.
use Prim.Native.String.{◌++◌ as append}
use distributed_container_or.Base.{
  String, Bool, true, false, not, List, [], ◌∷◌, none, some, str_eq, if◌then◌else◌, keep, message,
  cut_prefix, decimal,
}
use distributed_container_or.Model.Floats.{Time}
use distributed_container_or.Model.Storage.{Service, ServiceEndpoint}
use distributed_container_or.Model.Work.{ClusterState}
use distributed_container_or.Store.Table.{lookup, insert, values}
use distributed_container_or.Store.State.{M, ◌>>=◌, pure, fail, read, modify, or_not_found}
use distributed_container_or.Store.{
  stamped, join_key, with_prefix, list_nodes, list_deployments, list_workloads,
}

-- `key` begins with `prefix`.
abbrev pub begins : String → String → Bool
begins key prefix = elim (cut_prefix key prefix) [ none ↦ false | some _ ↦ true ]

-- `fmt.Sprintf("%s-%s-%d", serviceID, workloadID, port)`.
unfoldable pub endpoint_id : ServiceEndpoint → String
endpoint_id e =
    append e.service_id (append "-" (append e.workload_id (append "-" (decimal e.port))))

-- The endpoint as it is written.
unfoldable pub stored_endpoint : Time → ServiceEndpoint → ServiceEndpoint
unfolding endpoint_id
stored_endpoint now e = record e {
  id = if str_eq e.id "" then endpoint_id e else e.id;
  updated_at = stamped e.updated_at now;
}

abbrev pub endpoint_key : ServiceEndpoint → String
endpoint_key e = join_key e.service_id e.id

unfoldable pub write_endpoints :
    Time → List ServiceEndpoint → List (String × ServiceEndpoint) → List (String × ServiceEndpoint)
unfolding stored_endpoint
write_endpoints now [] t = t
write_endpoints now (e ∷ es) t =
    let stored = stored_endpoint now e in
    write_endpoints now es (insert (endpoint_key stored) stored t)

unfoldable pub without_prefix {ℓ} : {V : Type ℓ} → String → List (String × V) → List (String × V)
without_prefix prefix t = keep (λ e. not (begins e.0 prefix)) t

module _ {F : Type 0} where
  unfoldable pub create_service : Service → M F Unit
  create_service svc = do
    t ← read (λ o. o.services)
    elim (lookup svc.id t) [
      | some _ ↦ fail (message "service %s already exists")
      | none ↦ modify λ o. record o { services = insert svc.id svc o.services }
    ]

  unfoldable pub get_service : String → M F Service
  get_service id = do t ← read (λ o. o.services); or_not_found (lookup id t)

  unfoldable pub list_services : M F (List Service)
  list_services = read λ o. values o.services

  unfoldable pub replace_service_endpoints : Time → String → List ServiceEndpoint → M F Unit
  unfolding write_endpoints without_prefix
  replace_service_endpoints now service_id es = modify λ o. record o {
    endpoints = write_endpoints now es (without_prefix (append service_id ":") o.endpoints);
  }

  unfoldable pub list_service_endpoints : String → M F (List ServiceEndpoint)
  unfolding with_prefix
  list_service_endpoints service_id =
      read λ o. values (with_prefix (append service_id ":") o.endpoints)

  unfoldable pub snapshot : M F (ClusterState F)
  unfolding list_nodes list_deployments list_workloads
  snapshot = do
    nodes ← list_nodes
    deployments ← list_deployments
    workloads ← list_workloads
    pure (record { nodes = nodes; deployments = deployments; workloads = workloads })
