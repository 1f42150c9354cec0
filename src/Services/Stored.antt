-- ===== src/Services/Stored.antt =====
-- What the store holds of a service's endpoints after a pass, against a map from keys.
use Prim.Native.String.{◌++◌ as append}
use distributed_container_or.Base.{
  ◌≡◌, refl, ap, ◌∙◌, String, List, [], ◌∷◌, Option, none, some, arith, ok, str_eq, eq_iff,
  if◌then◌else◌,
}
use distributed_container_or.Model.Floats.{Time}
use distributed_container_or.Model.Storage.{Service, ServiceEndpoint}
use distributed_container_or.Store.Table.{lookup, insert, values, lookup-insert}
use distributed_container_or.Store.State.{Orchestrator, and_then}
use distributed_container_or.Store.Traffic.{
  begins, endpoint_key, stored_endpoint, write_endpoints, without_prefix,
}
use distributed_container_or.Services.{reconcile_service_endpoints}
use distributed_container_or.Services.Collecting.{endpoints_of}

-- A store as a client sees it: what stands at each key.
abbrev pub View : Type 0
View = String → Option ServiceEndpoint

abbrev pub view : List (String × ServiceEndpoint) → View
view t key = lookup key t

-- The keys that begin with the prefix are empty.
abbrev pub cleared : String → View → View
cleared prefix f key = if begins key prefix then none else f key

-- The endpoints are put under their keys, the later ones over the earlier.
abbrev pub filled : Time → List ServiceEndpoint → View → View
filled now [] f = f
filled now (e ∷ es) f =
    let stored = stored_endpoint now e in
    filled now es (λ key. if str_eq (endpoint_key stored) key then some stored else f key)

view-without_prefix :
    (prefix key : String) (t : List (String × ServiceEndpoint))
    → view (without_prefix prefix t) key ≡ cleared prefix (view t) key
unfolding without_prefix lookup
view-without_prefix prefix key [] = ground arith
view-without_prefix prefix key ((j, e) ∷ t) =
    ground (arith, eq_iff j key, view-without_prefix prefix key t)

filled_cong :
    (now : Time) (es : List ServiceEndpoint) (f g : View)
    → ((key : String) → f key ≡ g key)
    → (key : String) → filled now es f key ≡ filled now es g key
filled_cong now [] f g h key = h key
filled_cong now (e ∷ es) f g h key =
    filled_cong now es _ _
      (λ k.
        ap
          (λ (x : Option ServiceEndpoint).
            if str_eq (endpoint_key (stored_endpoint now e)) k
            then some (stored_endpoint now e)
            else x)
          (h k))
      key

view-write_endpoints :
    (now : Time) (es : List ServiceEndpoint) (t : List (String × ServiceEndpoint)) (key : String)
    → view (write_endpoints now es t) key ≡ filled now es (view t) key
unfolding write_endpoints
view-write_endpoints now [] t key = refl
view-write_endpoints now (e ∷ es) t key =
    let s = stored_endpoint now e in
    view-write_endpoints now es (insert (endpoint_key s) s t) key
    ∙ filled_cong now es _ _ (λ k. lookup-insert (endpoint_key s) k s t) key

-- A pass over a service that is stored does not fail, and refines a change of a map from keys to
-- endpoints: the keys under the service are emptied, and its endpoints put under their keys, the later
-- over the earlier.
pub reconcile_service_endpoints_refines :
    {F : Type 0} (o : Orchestrator F) (now : Time) (svc : Service)
    → lookup svc.id o.services ≡ some svc
    → ((reconcile_service_endpoints now svc.id o).0 ≡ ok tt)
      × ((key : String)
          → view (reconcile_service_endpoints now svc.id o).1.endpoints key
            ≡ filled now
                (endpoints_of now svc (values o.nodes) (values o.deployments) (values o.workloads))
                (cleared (append svc.id ":") (view o.endpoints))
                key)
unfolding reconcile_service_endpoints
reconcile_service_endpoints_refines o now svc stored =
    let es = endpoints_of now svc (values o.nodes) (values o.deployments) (values o.workloads) in
    let prefix = append svc.id ":" in
    rw (stored, and_then)
      (
        refl,
        λ key.
            view-write_endpoints now es (without_prefix prefix o.endpoints) key
            ∙ filled_cong now es _ _ (λ k. view-without_prefix prefix k o.endpoints) key,
      )
