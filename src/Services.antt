-- ===== src/Services.antt =====
-- internal/service/orchestrator.go: services, the endpoints that the passes give them, and the choice
-- of an endpoint for their traffic.
pub mod Addresses
pub mod Collecting
pub mod Endpoints
pub mod Routing
pub mod Stored
use Prim.Native.String.{◌++◌ as append}
use distributed_container_or.Base.{
  ℕ, ◌+◌, ◌-◌, ◌*◌, ◌/◌, ◌%◌, String, Bool, true, false, not, ◌&&◌, ◌||◌, List, [], ◌∷◌, ◌++◌, ℤ,
  pos, mul64, ltb_ℤ, leb_ℤ, eqb_ℤ, str_eq, if◌then◌else◌, keep, find, is_blank, trim_space,
  equal_fold, decimal, Option, none, some, Result, ok, err, Error, not_found, message,
}
use distributed_container_or.Model.Floats.{Time, second, sub_time}
use distributed_container_or.Model.Cluster.{Node, Workload, is_running, is_ready}
use distributed_container_or.Model.Deploy.{Deployment, DeploymentSpec, ProbeSpec, text}
use distributed_container_or.Model.Storage.{
  Service, ServiceSpec, ServiceType, ServicePort, ServiceEndpoint, EventLevel,
}
use distributed_container_or.Balancer.{Balancer, select, release}
use distributed_container_or.Rollout.{is_active}
use distributed_container_or.Network.{is_nil, labels_match_selector}
use distributed_container_or.Quota.{or_default, ensure_namespace_exists}
use distributed_container_or.Store.State.{
  Orchestrator, M, ◌>>=◌, ◌>>◌, pure, fail, read, modify, done, ignore, for_each,
}
use distributed_container_or.Store.{
  list_nodes, list_deployments, list_workloads, emit_event, fresh_id,
}
use distributed_container_or.Store.Traffic.{
  create_service, get_service, list_services, replace_service_endpoints, list_service_endpoints,
}
use distributed_container_or.Services.Collecting.{last_where, endpoints_of}

abbrev pub default_type : ServiceType → ServiceType
default_type ServiceType.unset = ServiceType.cluster_ip
default_type t = t

abbrev pub is_node_port : ServiceType → Bool
is_node_port ServiceType.node_port = true
is_node_port _ = false

-- The third and the fourth octet of the address that a seed, not negative, gives.
unfoldable pub octets : ℕ → ℕ × ℕ
octets seed = let v = seed % 65_534 in (v / 254 % 254 + 1, v % 254 + 1)

unfoldable pub allocate_cluster_ip : ℕ → String
unfolding octets
allocate_cluster_ip seed =
    let (third, fourth) = octets seed in
    append "10.96." (append (decimal (pos third)) (append "." (decimal (pos fourth))))

-- `t.UnixNano()`, for a time that is not before 1970.
abbrev pub unix_nano : Time → ℕ
unix_nano t = t - 62_135_596_800 * second

abbrev pub named : String → Service → Bool
named name svc = equal_fold (trim_space svc.spec.name) (trim_space name)

-- The address and the port that the chosen endpoint is reached under.
unfoldable pub exposed :
    Service → ServiceEndpoint → List ServicePort → Result (Service × ServiceEndpoint × String × ℤ)
exposed svc target [] = err (message "service has no ports")
exposed svc target (p ∷ ps) =
    if is_node_port svc.spec.type
    then (if eqb_ℤ p.node_port (pos 0)
        then err (message "nodeport service missing nodePort")
        else ok (svc, target, target.address, p.node_port))
    else ok (svc, target, svc.cluster_ip, p.port)

module _ {F : Type 0} where
  unfoldable pub reconcile_service_endpoints : Time → String → M F Unit
  unfolding get_service list_deployments list_workloads list_nodes endpoints_of
      replace_service_endpoints emit_event
  reconcile_service_endpoints now service_id = do
    svc ← get_service service_id
    deployments ← list_deployments
    workloads ← list_workloads
    nodes ← list_nodes
    replace_service_endpoints now svc.id (endpoints_of now svc nodes deployments workloads)
    ignore (
        emit_event now EventLevel.info "service" "EndpointsUpdated"
          (text "Service endpoints updated") "" svc.id "")

  unfoldable pub reconcile_all_service_endpoints : Time → M F Unit
  unfolding list_services
  reconcile_all_service_endpoints now = do
    services ← list_services
    for_each services (λ svc. reconcile_service_endpoints now svc.id)

  -- What the admission plugin answers is the parameter `admit`.
  unfoldable pub create_service_service :
      Time → (ServiceSpec → Option Error) → ServiceSpec → M F Service
  unfolding create_service emit_event fresh_id
  create_service_service now admit given =
      if is_blank given.name
      then fail (message "service name is required")
      else if is_nil given.selector
      then fail (message "service selector is required")
      else if is_nil given.ports
      then fail (message "service ports are required")
      else (do
        let spec : ServiceSpec = record given {
          type = default_type given.type;
          namespace = or_default given.namespace;
        }
        elim (admit spec) [ none ↦ done | some e ↦ fail e ]
        ensure_namespace_exists now spec.namespace
        id ← fresh_id
        let svc : Service = record {
          id = id;
          spec = spec;
          cluster_ip = allocate_cluster_ip (unix_nano now);
          dns_record_ttl_seconds = pos 30;
          created_at = now;
          updated_at = now;
        }
        create_service svc
        reconcile_service_endpoints now svc.id
        ignore (
            emit_event now EventLevel.info "service" "ServiceCreated" (text "Service created")
              svc.id "" "")
        pure svc)

  unfoldable pub list_endpoints : String → M F (List ServiceEndpoint)
  unfolding get_service list_service_endpoints
  list_endpoints service_id = get_service service_id >>= λ _. list_service_endpoints service_id

  -- The name for DNS, the endpoints and the time to live.
  unfoldable pub resolve_service_dns : String → M F (String × List ServiceEndpoint × ℤ)
  unfolding list_services list_service_endpoints
  resolve_service_dns name = do
    services ← list_services
    elim (find (named name) services) [
      | none ↦ fail not_found
      | some svc ↦ do
        endpoints ← list_service_endpoints svc.id
        let ttl : ℤ =
            if leb_ℤ svc.dns_record_ttl_seconds (pos 0) then pos 30 else svc.dns_record_ttl_seconds
        pure (append svc.spec.name ".default.svc.cluster.local", endpoints, ttl)
    ]

  unfoldable pub on_ready_node : List (Node F) → ServiceEndpoint → Bool
  unfolding last_where
  on_ready_node nodes e = elim (last_where (λ n. str_eq n.id e.node_id) nodes) [
    | some n ↦ is_ready n.status
    | none ↦ false
  ]

  -- A call of the balancer.
  abbrev pub balanced : {A : Type 0} → (Balancer → Result A × Balancer) → M F A
  balanced f o = ((f o.balance).0, record o { balance = (f o.balance).1 })

  unfoldable pub select_service_endpoint : String → String → M F ServiceEndpoint
  unfolding get_service list_service_endpoints list_nodes on_ready_node
  select_service_endpoint service_id strategy = do
    svc ← get_service service_id
    endpoints ← list_service_endpoints service_id
    nodes ← list_nodes
    balanced (λ b. select b service_id strategy (keep (on_ready_node nodes) endpoints))

  unfoldable pub release_service_endpoint : String → M F Unit
  release_service_endpoint id = modify λ o. record o { balance = release o.balance id }

  unfoldable pub find_service_by_name : String → M F Service
  unfolding list_services
  find_service_by_name name = do
    services ← list_services
    elim (find (named name) services) [ some svc ↦ pure svc | none ↦ fail not_found ]

  unfoldable pub route_service_traffic :
      String → String → M F (Service × ServiceEndpoint × String × ℤ)
  unfolding find_service_by_name select_service_endpoint exposed
  route_service_traffic name strategy = do
    svc ← find_service_by_name name
    target ← select_service_endpoint svc.id strategy
    λ o. (exposed svc target svc.spec.ports, o)
