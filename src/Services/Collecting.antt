-- ===== src/Services/Collecting.antt =====
-- internal/service/orchestrator.go, reconcileServiceEndpoints: the endpoints that a pass gives a service.
use Prim.Native.String.{◌++◌ as append}
use distributed_container_or.Base.{
  String, Bool, not, ◌&&◌, ◌||◌, List, [], ◌∷◌, ◌++◌, ℤ, pos, mul64, leb_ℤ, str_eq, if◌then◌else◌,
  is_blank, trim_space, decimal, Option, none, some,
}
use distributed_container_or.Model.Floats.{Time, second, sub_time}
use distributed_container_or.Model.Cluster.{Node, Workload, is_running}
use distributed_container_or.Model.Deploy.{Deployment, DeploymentSpec}
use distributed_container_or.Model.Storage.{Service, ServicePort, ServiceEndpoint}
use distributed_container_or.Rollout.{is_active}
use distributed_container_or.Network.{labels_match_selector}

-- `time.Duration(seconds) * time.Second`.
abbrev pub seconds : ℤ → ℤ
seconds n = mul64 n (pos second)

-- The maps that a pass builds by identifier: a later value replaces an earlier one.
unfoldable pub last_where {ℓ} : {A : Type ℓ} → (A → Bool) → List A → Option A
last_where p [] = none
last_where p (x ∷ xs) =
    let here : Option _ = if p x then some x else none in
    elim (last_where p xs) [ some y ↦ some y | none ↦ here ]

module _ {F : Type 0} where
  unfoldable pub address_of : List (Node F) → String → String
  unfolding last_where
  address_of nodes id =
      let listed : String = elim (last_where (λ n. str_eq n.id id) nodes) [
        | some n ↦ n.address
        | none ↦ ""
      ] in
      if is_blank listed then id else listed

  unfoldable pub is_serving : Time → DeploymentSpec F → Workload → Bool
  unfolding sub_time
  is_serving now spec w =
      let probe = spec.readiness_probe in
      is_running w.status
      && (not probe.enabled
          || leb_ℤ (seconds probe.initial_delay_seconds) (sub_time now w.created_at))

  -- The deployment whose workloads the service reaches.
  unfoldable pub reaches : Service → DeploymentSpec F → Bool
  reaches svc spec =
      str_eq (trim_space spec.namespace) (trim_space svc.spec.namespace)
      && labels_match_selector spec.labels svc.spec.selector

  unfoldable pub endpoint_of :
      Time → Service → List (Node F) → DeploymentSpec F → Workload → ServicePort → ServiceEndpoint
  unfolding address_of is_serving
  endpoint_of now svc nodes spec w p = record {
    id = append svc.id (append "-" (append w.id (append "-" (decimal p.target_port))));
    service_id = svc.id;
    workload_id = w.id;
    node_id = w.node_id;
    address = address_of nodes w.node_id;
    port = p.target_port;
    protocol = p.protocol;
    ready = is_serving now spec w;
    updated_at = now;
  }

  unfoldable pub endpoints_at :
      Time
      → Service
      → List (Node F)
      → DeploymentSpec F
      → Workload
      → List ServicePort
      → List ServiceEndpoint
  unfolding endpoint_of
  endpoints_at now svc nodes spec w [] = []
  endpoints_at now svc nodes spec w (p ∷ ps) =
      endpoint_of now svc nodes spec w p ∷ endpoints_at now svc nodes spec w ps

  -- The body of the loop over the workloads.
  unfoldable pub endpoints_for :
      Time → Service → List (Node F) → List (Deployment F) → Workload → List ServiceEndpoint
  unfolding last_where reaches endpoints_at
  endpoints_for now svc nodes deployments w =
      if not (is_active w)
      then []
      else elim (last_where (λ d. str_eq d.id w.deployment_id) deployments) [
        | none ↦ []
        | some d ↦
            if reaches svc d.spec then endpoints_at now svc nodes d.spec w svc.spec.ports else []
      ]

  unfoldable pub endpoints_of :
      Time → Service → List (Node F) → List (Deployment F) → List Workload → List ServiceEndpoint
  unfolding endpoints_for
  endpoints_of now svc nodes deployments [] = []
  endpoints_of now svc nodes deployments (w ∷ ws) =
      endpoints_for now svc nodes deployments w ++ endpoints_of now svc nodes deployments ws
