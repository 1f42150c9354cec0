-- ===== src/Store.antt =====
-- internal/store/store.go: the operations of the store on the tables of the orchestrator's state.
-- A key is what follows the literal prefix of its table; no literal prefix begins another.
pub mod Table
pub mod Counting
pub mod Prefixes
pub mod Queue
pub mod State
pub mod Traffic
pub mod Work
pub mod Access
use Prim.Native.String.{◌++◌ as append}
use distributed_container_or.Base.{
  ℕ, suc, ◌+◌, String, Bool, true, false, not, List, [], ◌∷◌, ◌++◌, ℤ, pos, Option, none, some,
  str_eq, if◌then◌else◌, keep, take, is_blank, Result, ok, err, Error, not_found, message,
  cut_prefix, map, any,
}
use distributed_container_or.Model.Floats.{Time, is_zero}
use distributed_container_or.Model.Cluster.{Node, Workload, Assignment}
use distributed_container_or.Model.Deploy.{Deployment, Message}
use distributed_container_or.Model.Storage.{
  Namespace, NamespaceQuota, Secret, PersistentVolume, PersistentVolumePhase, PersistentVolumeClaim,
  PersistentVolumeClaimPhase, NetworkPolicy, RoleBinding, ControllerLease, ControlPlaneTransition,
  Service, ServiceEndpoint, Event, EventLevel,
}
use Table.{lookup, insert, erase, values}
use State.{Orchestrator, M, ◌>>=◌, ◌>>◌, pure, fail, read, modify, done, or_not_found, outcome}

abbrev pub stamped : Time → Time → Time
stamped t now = if is_zero t then now else t

-- `namespace + ":" + name`.
abbrev pub join_key : String → String → String
join_key a b = append a (append ":" b)

-- The values of the entries whose key begins with `prefix`.
unfoldable pub with_prefix {ℓ} : {V : Type ℓ} → String → List (String × V) → List (String × V)
with_prefix prefix t = keep (λ e. elim (cut_prefix e.0 prefix) [ none ↦ false | some _ ↦ true ]) t

module _ {F : Type 0} where
  unfoldable pub upsert_node : Time → Node F → M F Unit
  upsert_node now node =
      let stored = record node { last_seen = stamped node.last_seen now } in
      modify λ o. record o { nodes = insert node.id stored o.nodes }

  unfoldable pub get_node : String → M F (Node F)
  get_node id = do t ← read (λ o. o.nodes); or_not_found (lookup id t)

  unfoldable pub list_nodes : M F (List (Node F))
  list_nodes = read λ o. values o.nodes

  unfoldable pub create_deployment : Deployment F → M F Unit
  create_deployment dep = do
    t ← read (λ o. o.deployments)
    elim (lookup dep.id t) [
      | some _ ↦ fail (message "deployment already exists")
      | none ↦ modify λ o. record o { deployments = insert dep.id dep o.deployments }
    ]

  -- The deployment's workloads go with it.
  unfoldable pub delete_deployment : String → M F Unit
  delete_deployment id = modify λ o. record o {
    deployments = erase id o.deployments;
    workloads = keep (λ e. not (str_eq (e.1).deployment_id id)) o.workloads;
  }

  unfoldable pub get_deployment : String → M F (Deployment F)
  get_deployment id = do t ← read (λ o. o.deployments); or_not_found (lookup id t)

  unfoldable pub list_deployments : M F (List (Deployment F))
  list_deployments = read λ o. values o.deployments

  unfoldable pub update_deployment : Deployment F → M F Unit
  update_deployment dep = modify λ o. record o { deployments = insert dep.id dep o.deployments }

  unfoldable pub upsert_workload : Time → Workload → M F Unit
  upsert_workload now w =
      modify λ o. record o { workloads = insert w.id (record w { updated_at = now }) o.workloads }

  unfoldable pub get_workload : String → M F Workload
  get_workload id = do t ← read (λ o. o.workloads); or_not_found (lookup id t)

  unfoldable pub list_workloads : M F (List Workload)
  list_workloads = read λ o. values o.workloads

  unfoldable pub list_workloads_by_deployment : String → M F (List Workload)
  list_workloads_by_deployment id =
      read λ o. keep (λ w. str_eq w.deployment_id id) (values o.workloads)

  unfoldable pub delete_workload : String → M F Unit
  delete_workload id = modify λ o. record o { workloads = erase id o.workloads }

  unfoldable pub create_namespace : Time → Namespace → M F Unit
  create_namespace now ns = do
    t ← read (λ o. o.namespaces)
    let created = stamped ns.created_at now
    let stored = record ns { created_at = created; updated_at = stamped ns.updated_at created }
    elim (lookup ns.name t) [
      | some _ ↦ fail (message "namespace already exists")
      | none ↦ modify λ o. record o { namespaces = insert ns.name stored o.namespaces }
    ]

  unfoldable pub get_namespace : String → M F Namespace
  get_namespace name = do t ← read (λ o. o.namespaces); or_not_found (lookup name t)

  unfoldable pub list_namespaces : M F (List Namespace)
  list_namespaces = read λ o. values o.namespaces

  unfoldable pub upsert_namespace_quota : Time → NamespaceQuota → M F Unit
  upsert_namespace_quota now q = modify λ o. record o {
    quotas =
        insert q.namespace (record q { created_at = stamped q.created_at now; updated_at = now })
          o.quotas;
  }

  unfoldable pub get_namespace_quota : String → M F NamespaceQuota
  get_namespace_quota ns = do t ← read (λ o. o.quotas); or_not_found (lookup ns t)

  unfoldable pub upsert_secret : Time → Secret → M F Unit
  upsert_secret now s = modify λ o. record o {
    secrets =
        insert (join_key s.namespace s.name)
          (record s { created_at = stamped s.created_at now; updated_at = now }) o.secrets;
  }

  unfoldable pub get_secret : String → String → M F Secret
  get_secret ns name = do t ← read (λ o. o.secrets); or_not_found (lookup (join_key ns name) t)

  unfoldable pub upsert_persistent_volume : Time → PersistentVolume → M F Unit
  upsert_persistent_volume now pv =
      let phase : PersistentVolumePhase = elim pv.phase [
        | PersistentVolumePhase.unset ↦ PersistentVolumePhase.available
        | p ↦ p
      ] in
      modify λ o. record o {
        volumes =
            insert pv.name
              (record pv {
                created_at = stamped pv.created_at now;
                updated_at = now;
                phase = phase;
              })
              o.volumes;
      }

  unfoldable pub get_persistent_volume : String → M F PersistentVolume
  get_persistent_volume name = do t ← read (λ o. o.volumes); or_not_found (lookup name t)

  unfoldable pub list_persistent_volumes : M F (List PersistentVolume)
  list_persistent_volumes = read λ o. values o.volumes

  unfoldable pub upsert_persistent_volume_claim : Time → PersistentVolumeClaim → M F Unit
  upsert_persistent_volume_claim now c =
      let phase : PersistentVolumeClaimPhase = elim c.phase [
        | PersistentVolumeClaimPhase.unset ↦ PersistentVolumeClaimPhase.pending
        | p ↦ p
      ] in
      modify λ o. record o {
        claims =
            insert (join_key c.namespace c.name)
              (record c { created_at = stamped c.created_at now; updated_at = now; phase = phase })
              o.claims;
      }

  unfoldable pub get_persistent_volume_claim : String → String → M F PersistentVolumeClaim
  get_persistent_volume_claim ns name = do
    t ← read (λ o. o.claims)
    or_not_found (lookup (join_key ns name) t)

  unfoldable pub list_persistent_volume_claims : String → M F (List PersistentVolumeClaim)
  unfolding with_prefix
  list_persistent_volume_claims ns = read λ o. values (with_prefix (append ns ":") o.claims)

  unfoldable pub upsert_controller_lease : Time → ControllerLease → M F Unit
  upsert_controller_lease now l =
      modify λ o. record o { lease = some (record l { updated_at = stamped l.updated_at now }) }

  unfoldable pub get_controller_lease : M F ControllerLease
  get_controller_lease = do l ← read (λ o. o.lease); or_not_found l

  unfoldable pub delete_controller_lease : M F Unit
  delete_controller_lease = modify λ o. record o { lease = none }

  -- The next identifier that is not taken from the caller.
  unfoldable pub fresh_id : M F String
  fresh_id o = (ok (o.ids o.serial), record o { serial = suc o.serial })

  unfoldable pub append_control_plane_transition : Time → ControlPlaneTransition → M F Unit
  unfolding fresh_id
  append_control_plane_transition now t = do
    id ← (if is_blank t.id then fresh_id else pure t.id)
    let stored = record t { id = id; created_at = stamped t.created_at now }
    modify (λ o. record o { transitions = o.transitions ++ stored ∷ [] })

  unfoldable pub enqueue_assignment : Assignment → M F Unit
  unfolding fresh_id
  enqueue_assignment a = do
    id ← (if str_eq a.id "" then fresh_id else pure a.id)
    modify λ o. record o {
      assignments = insert (join_key a.node_id id) (record a { id = id }) o.assignments;
    }

  -- The first `n` assignments under the node's prefix, which leave the table.
  unfoldable pub pop_assignments : String → ℕ → M F (List Assignment)
  unfolding with_prefix
  pop_assignments node_id n o =
      let popped = take n (with_prefix (append node_id ":") o.assignments) in
      let rest = keep (λ e. not (any (λ p. str_eq p.0 e.0) popped)) o.assignments in
      (ok (values popped), record o { assignments = rest })

  -- The event log, in the order of emission.
  unfoldable pub append_event : Event → M F Unit
  append_event e = modify λ o. record o { events = o.events ++ e ∷ [] }

  -- internal/service/orchestrator.go: `emitEvent`, up to the broadcast to subscribers.
  unfoldable pub emit_event :
      Time → EventLevel → String → String → Message → String → String → String → M F Unit
  unfolding fresh_id append_event
  emit_event now level type reason body deployment_id workload_id node_id = do
    id ← fresh_id
    append_event (record {
      id = id;
      timestamp = now;
      level = level;
      type = type;
      reason = reason;
      message = body;
      deployment_id = deployment_id;
      workload_id = workload_id;
      node_id = node_id;
    })
