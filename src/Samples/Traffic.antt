-- ===== src/Samples/Traffic.antt =====
-- The theorems on services at a concrete cluster.
use distributed_container_or.Network.{labels_match_selector}
use Prim.Native.String.{◌++◌ as append}
use distributed_container_or.Base.{
  ◌≡◌, refl, ◌↔◌, String, [], ◌∷◌, ℤ, pos, some, ok, Elem, find, trim_space, equal_fold,
}
use distributed_container_or.Model.Cluster.{Node, Workload}
use distributed_container_or.Model.Deploy.{Deployment}
use distributed_container_or.Model.Storage.{
  Service, ServiceEndpoint, ServiceProtocol, ServiceType, ServicePort,
}
use distributed_container_or.Store.Table.{lookup, values}
use distributed_container_or.Store.State.{Orchestrator}
use distributed_container_or.Services.{named, route_service_traffic, reconcile_service_endpoints}
use distributed_container_or.Services.Collecting.{endpoint_of, endpoints_of}
use distributed_container_or.Services.Endpoints.{Serves, endpoints_of_iff}
use distributed_container_or.Services.Routing.{Routed, route_service_traffic_lem}
use distributed_container_or.Services.Stored.{
  view, filled, cleared, reconcile_service_endpoints_refines,
}
use distributed_container_or.Samples.{size, node, rollout, spec, deployment, workload, empty}

abbrev http : ServicePort
http = record {
  name = "http";
  port = pos 80;
  target_port = pos 8_080;
  node_port = pos 0;
  protocol = ServiceProtocol.tcp;
}

abbrev pub shop : Service
shop = record {
  id = "svc-1";
  spec = record {
    namespace = "default";
    name = "Shop";
    selector = ("app", "web") ∷ [];
    ports = http ∷ [];
    type = ServiceType.cluster_ip;
  };
  cluster_ip = "10.96.1.7";
  dns_record_ttl_seconds = pos 30;
  created_at = 1;
  updated_at = 1;
}

abbrev web : Deployment ℤ
web = deployment "d" (record (spec 0 [] (rollout 1 0)) { labels = ("app", "web") ∷ [] })

abbrev n1 : Node ℤ
n1 = node "n1" [] (size 1_000 512)

abbrev w1 : Workload
w1 = workload "w1" "d" 0 1 3

abbrev cluster : Orchestrator ℤ
cluster = record empty {
  workloads = ("w1", w1) ∷ [];
  deployments = ("d", web) ∷ [];
  nodes = ("n1", n1) ∷ [];
  services = ("svc-1", shop) ∷ [];
}

abbrev front : ServiceEndpoint
front = endpoint_of 9 shop (n1 ∷ []) web.spec w1 http

endpoints_of_iff_example :
    Elem front (endpoints_of 9 shop (n1 ∷ []) (web ∷ []) (w1 ∷ []))
    ↔ ((w : Workload) × Elem w (w1 ∷ []) × Serves 9 shop (n1 ∷ []) (web ∷ []) w front)
endpoints_of_iff_example = endpoints_of_iff 9 shop (n1 ∷ []) (web ∷ []) front (w1 ∷ [])

one_endpoint : endpoints_of 9 shop (n1 ∷ []) (web ∷ []) (w1 ∷ []) ≡ front ∷ []
unfolding endpoints_of trim_space labels_match_selector
one_endpoint = refl

pub shop_stored : lookup "svc-1" cluster.services ≡ some shop
unfolding lookup
shop_stored = refl

reconcile_service_endpoints_refines_example :
    ((reconcile_service_endpoints 9 "svc-1" cluster).0 ≡ ok tt)
    × ((key : String)
        → view (reconcile_service_endpoints 9 "svc-1" cluster).1.endpoints key
          ≡ filled 9
              (endpoints_of 9 shop
                (values cluster.nodes)
                (values cluster.deployments)
                (values cluster.workloads))
              (cleared (append "svc-1" ":") (view cluster.endpoints))
              key)
reconcile_service_endpoints_refines_example =
    reconcile_service_endpoints_refines cluster 9 shop shop_stored

abbrev pub served : Orchestrator ℤ
served = record cluster { endpoints = ("svc-1:e1", record front { id = "e1" }) ∷ [] }

pub shop_named : find (named "shop ") (values served.services) ≡ some shop
unfolding values equal_fold trim_space
shop_named = refl

route_service_traffic_lem_example : Routed served shop "" (route_service_traffic "shop " "" served)
route_service_traffic_lem_example =
    route_service_traffic_lem served shop "" "shop " shop_named shop_stored
