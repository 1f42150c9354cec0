-- ===== src/Services/Endpoints.antt =====
-- The endpoints that a pass gives a service.
use distributed_container_or.Base.{
  ◌≡◌, refl, inl, inr, ◌↔◌, true, List, [], ◌∷◌, some, str_eq, Elem, Elem-append, Bool-cases,
  Option-cases,
}
use distributed_container_or.Model.Floats.{Time}
use distributed_container_or.Model.Cluster.{Node, Workload}
use distributed_container_or.Model.Deploy.{Deployment}
use distributed_container_or.Model.Storage.{Service, ServicePort, ServiceEndpoint}
use distributed_container_or.Rollout.{is_active}
use distributed_container_or.Services.Collecting.{
  last_where, reaches, endpoint_of, endpoints_at, endpoints_for, endpoints_of,
}

module _ {F : Type 0} (now : Time) (svc : Service) (nodes : List (Node F)) where
  -- `e` leads to the workload on a port of the service: the workload is pending or running, and the
  -- service reaches the deployment of the workload.
  pub record Serves (deployments : List (Deployment F)) (w : Workload) (e : ServiceEndpoint)
      : Type 0 where
    pub port : ServicePort
    pub deployment : Deployment F
    pub active : is_active w ≡ true
    pub found : last_where (λ d. str_eq d.id w.deployment_id) deployments ≡ some deployment
    pub reached : reaches svc deployment.spec ≡ true
    pub of_service : Elem port svc.spec.ports
    pub same : e ≡ endpoint_of now svc nodes deployment.spec w port

  module _ (deployments : List (Deployment F)) where
    endpoints_at-Elem :
        (d : Deployment F) (w : Workload) (e : ServiceEndpoint) (ps : List ServicePort)
        → Elem e (endpoints_at now svc nodes d.spec w ps)
        → (p : ServicePort) × Elem p ps × (e ≡ endpoint_of now svc nodes d.spec w p)
    unfolding endpoints_at
    endpoints_at-Elem d w e [] m = elim m [ ]
    endpoints_at-Elem d w e (p ∷ ps) (inl same) = (p, inl refl, same)
    endpoints_at-Elem d w e (p ∷ ps) (inr m) =
        let (q, k, same) = endpoints_at-Elem d w e ps m in (q, inr k, same)

    Elem-endpoints_at :
        (d : Deployment F) (w : Workload) (p : ServicePort) (ps : List ServicePort)
        → Elem p ps
        → Elem (endpoint_of now svc nodes d.spec w p) (endpoints_at now svc nodes d.spec w ps)
    unfolding endpoints_at
    Elem-endpoints_at d w p [] m = elim m [ ]
    Elem-endpoints_at d w p (q ∷ ps) (inl e) = inl (rw e)
    Elem-endpoints_at d w p (q ∷ ps) (inr m) = inr (Elem-endpoints_at d w p ps m)

    endpoints_for-Serves :
        (w : Workload) (e : ServiceEndpoint)
        → Elem e (endpoints_for now svc nodes deployments w)
        → Serves deployments w e
    unfolding endpoints_for
    endpoints_for-Serves w e m =
        let active : is_active w ≡ true = elim (Bool-cases (is_active w)) [
          | inl h ↦ h
          | inr h ↦ elim (rw h at m) [ ]
        ] in
        elim (Option-cases (last_where (λ d. str_eq d.id w.deployment_id) deployments)) [
          | inl gone ↦ elim (rw (active, gone) at m) [ ]
          | inr (d, found) ↦ elim (Bool-cases (reaches svc d.spec)) [
            | inl reached ↦
                let (p, k, same) =
                  endpoints_at-Elem d w e svc.spec.ports (rw (active, found, reached) at m) in
                record {
                  port = p;
                  deployment = d;
                  active = active;
                  found = found;
                  reached = reached;
                  of_service = k;
                  same = same;
                }
            | inr apart ↦ elim (rw (active, found, apart) at m) [ ]
          ]
        ]

    Serves-endpoints_for :
        (w : Workload) (e : ServiceEndpoint)
        → Serves deployments w e
        → Elem e (endpoints_for now svc nodes deployments w)
    unfolding endpoints_for
    Serves-endpoints_for w e s =
        rw (s.active, s.found, s.reached, s.same)
          (Elem-endpoints_at s.deployment w s.port svc.spec.ports s.of_service)

    -- An endpoint is among those that a pass gives a service exactly where it is that of a port of
    -- the service and a workload that is pending or running and whose deployment the service reaches.
    pub endpoints_of_iff :
        (e : ServiceEndpoint) (ws : List Workload)
        → Elem e (endpoints_of now svc nodes deployments ws)
          ↔ ((w : Workload) × Elem w ws × Serves deployments w e)
    unfolding endpoints_of
    endpoints_of_iff e [] = (λ m. elim m [ ], λ (w, m, s). elim m [ ])
    endpoints_of_iff e (w ∷ ws) =
        let both =
          Elem-append e (endpoints_for now svc nodes deployments w)
            (endpoints_of now svc nodes deployments ws) in
        let rest = endpoints_of_iff e ws in
        (
          λ m. elim (both.0 m) [
            | inl k ↦ (w, inl refl, endpoints_for-Serves w e k)
            | inr k ↦ let (v, n, s) = rest.0 k in (v, inr n, s)
          ],
          λ (v, m, s). both.1 (elim m [
            | inl same ↦ inl (Serves-endpoints_for w e (rw same at s))
            | inr n ↦ inr (rest.1 (v, n, s))
          ]),
        )
