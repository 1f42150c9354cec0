-- ===== src/Services/Routing.antt =====
-- Where the traffic of a service is sent.
use Prim.Native.String.{◌++◌ as append}
use distributed_container_or.Base.{
  ◌≡◌, refl, ◌⊎◌, inl, inr, String, true, false, List, [], ◌∷◌, ℤ, pos, eq_of_parts, add64, eqb_ℤ,
  Option, none, some, subst, Bool, arith, Result, ok, err, Elem, Elem-keep, keep-Elem, keep,
  Option-cases, str_eq, find, Bool-cases,
}
use distributed_container_or.Model.Storage.{Service, ServicePort, ServiceEndpoint}
use distributed_container_or.Model.Cluster.{Node, is_ready}
use distributed_container_or.Balancer.{Balancer, update, select}
use distributed_container_or.Balancer.Choice.{Supported, Selected, select-Selected}
use distributed_container_or.Store.Table.{lookup, values}
use distributed_container_or.Store.State.{Orchestrator, and_then}
use distributed_container_or.Store.{with_prefix}
use distributed_container_or.Services.{
  named, is_node_port, exposed, on_ready_node, route_service_traffic,
}
use distributed_container_or.Services.Collecting.{last_where}

abbrev pub Target : Type 0
Target = Service × ServiceEndpoint × String × ℤ

-- The first port cannot be reached: there is none, or it has no node port and needs one.
abbrev pub Unexposed : Service → List ServicePort → Type 0
Unexposed svc [] = Unit
Unexposed svc (p ∷ ps) = (is_node_port svc.spec.type ≡ true) × (p.node_port ≡ pos 0)

-- The address and the port: those of the node, or those of the cluster.
abbrev pub Exposed : Service → ServiceEndpoint → List ServicePort → String → ℤ → Type 0
Exposed svc e [] address port = ⊥
Exposed svc e (p ∷ ps) address port =
    ((is_node_port svc.spec.type ≡ true) × (address ≡ e.address) × (port ≡ p.node_port))
    ⊎ ((is_node_port svc.spec.type ≡ false) × (address ≡ svc.cluster_ip) × (port ≡ p.port))

ExposedBy : Service → ServiceEndpoint → List ServicePort → Result Target → Type 0
ExposedBy svc e ps (ok (s, t, address, port)) = (s ≡ svc) × (t ≡ e) × Exposed svc e ps address port
ExposedBy svc e ps (err x) = Unexposed svc ps

exposed-ExposedBy :
    (svc : Service) (e : ServiceEndpoint) (ps : List ServicePort)
    → ExposedBy svc e ps (exposed svc e ps)
unfolding exposed ExposedBy
exposed-ExposedBy svc e [] = tt
exposed-ExposedBy svc e (p ∷ ps) = elim (Bool-cases (is_node_port svc.spec.type)) [
  | inl node ↦ elim (Bool-cases (eqb_ℤ p.node_port (pos 0))) [
    | inl missing ↦ rw (node, missing) (node, eq_of_parts p.node_port (pos 0) (ground arith))
    | inr given ↦ rw (node, given) (refl, refl, inl (node, refl, refl))
  ]
  | inr cluster ↦ rw cluster (refl, refl, inr (cluster, refl, refl))
]

module _ {F : Type 0} (o : Orchestrator F) (svc : Service) (strategy : String) where
  -- The endpoints stored for the service, on nodes that are ready.
  abbrev pub eligible : List ServiceEndpoint
  eligible =
      keep (on_ready_node (values o.nodes)) (values (with_prefix (append svc.id ":") o.endpoints))

  -- The endpoint's node is listed and ready.
  abbrev pub OnReady : ServiceEndpoint → Type 0
  OnReady e =
      (n : Node F) × (last_where (λ m. str_eq m.id e.node_id) (values o.nodes) ≡ some n)
      × (is_ready n.status ≡ true)

  -- The endpoint is stored for the service, on a node that is ready.
  abbrev pub Eligible : ServiceEndpoint → Type 0
  Eligible e = Elem e (values (with_prefix (append svc.id ":") o.endpoints)) × OnReady e

  on_ready_node-OnReady :
      (e : ServiceEndpoint) → on_ready_node (values o.nodes) e ≡ true → OnReady e
  unfolding on_ready_node
  on_ready_node-OnReady e ready =
      let holds : Option (Node F) → Bool =
        λ x. elim x [ some n ↦ is_ready n.status | none ↦ false ] in
      elim (Option-cases (last_where (λ m. str_eq m.id e.node_id) (values o.nodes))) [
        | inl none_there ↦ cc (subst (λ x. holds x ≡ true) none_there ready)
        | inr (n, found) ↦ (n, found, subst (λ x. holds x ≡ true) found ready)
      ]

  eligible-Eligible : (e : ServiceEndpoint) → Elem e eligible → Eligible e
  eligible-Eligible e m =
      let stored = values (with_prefix (append svc.id ":") o.endpoints) in
      let both = Elem-keep (on_ready_node (values o.nodes)) e stored m in
      (both.0, on_ready_node-OnReady e both.1)

  Eligible-eligible : (e : ServiceEndpoint) → Eligible e → Elem e eligible
  unfolding on_ready_node
  Eligible-eligible e (m, (n, found, ready)) =
      let stored = values (with_prefix (append svc.id ":") o.endpoints) in
      keep-Elem (on_ready_node (values o.nodes)) e stored m (rw (found, on_ready_node) ready)

  -- One connection more on the endpoint.
  abbrev pub Counted : Orchestrator F → ServiceEndpoint → Type 0
  Counted o' e =
      o'.balance.inflight ≡ update o.balance.inflight e.id (add64 (o.balance.inflight e.id) (pos 1))

  abbrev pub Routed : Result Target × Orchestrator F → Type 0
  Routed (ok (s, e, address, port), o') =
      (s ≡ svc)
      × Eligible e
      × (e.ready ≡ true)
      × Counted o' e
      × Exposed svc e svc.spec.ports address port
  Routed (err x, o') =
      ((o'.balance ≡ o.balance)
        × (((e : ServiceEndpoint) → Eligible e → e.ready ≡ false) ⊎ (¬ Supported strategy)))
      ⊎ (Unexposed svc svc.spec.ports
          × ((e : ServiceEndpoint) × Eligible e × (e.ready ≡ true) × Counted o' e))

  exposed-Routed :
      (e : ServiceEndpoint) (b : Balancer) (r : Result Target)
      → ExposedBy svc e svc.spec.ports r
      → Selected o.balance strategy eligible (ok e, b)
      → Routed (r, record o { balance = b })
  unfolding ExposedBy
  exposed-Routed e b (ok (s, t, address, port)) x l =
      (x.0, rw x.1 (eligible-Eligible e l.1), rw x.1 l.2, rw x.1 l.3, rw x.1 x.2)
  exposed-Routed e b (err x) u l = inr (u, (e, eligible-Eligible e l.1, l.2, l.3))

  Selected-Routed :
      (r : Result ServiceEndpoint × Balancer)
      → Selected o.balance strategy eligible r
      → Routed
          (and_then (r.0, record o { balance = r.1 }) (λ e o'. (exposed svc e svc.spec.ports, o')))
  Selected-Routed (ok e, b) l =
      exposed-Routed e b (exposed svc e svc.spec.ports) (exposed-ExposedBy svc e svc.spec.ports) l
  Selected-Routed (err x, b) (same, inl none_left) =
      inl (same, inl λ e m. none_left e (Eligible-eligible e m))
  Selected-Routed (err x, b) (same, inr unknown) = inl (same, inr unknown)

  -- Where a service is the first of its name and is stored under its identifier, its traffic is
  -- sent to an endpoint that is stored for it, ready, and on a ready node, which counts one connection
  -- more, under the node port or the cluster's address and port. Otherwise there is no such endpoint
  -- or the strategy is unknown, and no connection is counted; or the first port cannot be reached,
  -- and yet a connection is counted on an endpoint.
  pub route_service_traffic_lem :
      (name : String)
      → find (named name) (values o.services) ≡ some svc
      → lookup svc.id o.services ≡ some svc
      → Routed (route_service_traffic name strategy o)
  unfolding route_service_traffic
  route_service_traffic_lem name first stored =
      rw (first, and_then, stored)
        (Selected-Routed (select o.balance svc.id strategy eligible)
          (select-Selected o.balance svc.id strategy eligible))
