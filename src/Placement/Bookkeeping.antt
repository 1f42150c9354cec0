-- ===== src/Placement/Bookkeeping.antt =====
-- What placing a workload writes: the workload, the node's use, and the assignment for the agent.
use distributed_container_or.Base.{
  suc, ◌≡◌, refl, inl, inr, ap, ap₂, sym, subst, ◌∙◌, String, List, [], ◌∷◌, arith, some, Result,
  ok, err, Error, Option-cases, str_eq, eq_iff, if◌then◌else◌, keep, slice_stable,
}
use distributed_container_or.Model.Floats.{Float, Time}
use distributed_container_or.Model.Cluster.{Resource, Node, Workload, Assignment, SecretFile}
use distributed_container_or.Model.Deploy.{Deployment}
use distributed_container_or.Store.Table.{lookup, values, lookup-insert, insert}
use distributed_container_or.Store.State.{Orchestrator}
use distributed_container_or.Store.{join_key, stamped}
use distributed_container_or.Secrets.{resolve_secret_files_for_deployment}
use distributed_container_or.Secrets.Reading.{resolve-state, resolve_same}
use distributed_container_or.Placement.{
  place, new_workload, charged, create_assignment, reserve, send, create_workload_for_deployment,
  evict, preempt_one, try_preempt_for_priority, select_for, host_of, preempt_first, is_candidate,
}
use distributed_container_or.Placement.Writes.{
  IsPending, IsCharged, IsOrder, new_workload-IsPending, charged-IsCharged,
  create_assignment-IsOrder,
}

module _ {F : Type 0} ⦃fl : Float F⦄ (now : Time) (dep : Deployment F) where
  pub create_failing :
      (o o' : Orchestrator F) (e : Error)
      → place now dep o ≡ (err e, o')
      → create_workload_for_deployment now dep o ≡ (err e, o')
  unfolding create_workload_for_deployment
  create_failing o o' e h = ground (arith, h)

  -- What placing a workload does not touch.
  abbrev Kept : Orchestrator F → Orchestrator F → Type 0
  Kept o q = (o.secrets ≡ q.secrets) × (o.decrypt ≡ q.decrypt) × (o.assignments ≡ q.assignments)

  preempt_one-Kept :
      (req : Resource) (nodes : List (Node F)) (ws : List Workload) (o : Orchestrator F)
      → Kept o (preempt_one now dep req nodes ws o).1
  unfolding preempt_one evict
  preempt_one-Kept req nodes [] o = (refl, refl, refl)
  preempt_one-Kept req nodes (w ∷ ws) o = elim (Option-cases (host_of nodes req w)) [
    | inl e ↦ rw (preempt_one, e) (preempt_one-Kept req nodes ws o)
    | inr (n, e) ↦ rw (preempt_one, e) (refl, refl, refl)
  ]

  place-Kept : (o : Orchestrator F) → Kept o (place now dep o).1
  unfolding place select_for try_preempt_for_priority
  place-Kept o = ground (
    arith,
    preempt_one-Kept dep.spec.resources (values o.nodes)
        (slice_stable preempt_first (keep (is_candidate dep) (values o.workloads))) o,
  )

  -- The table has the value at the key, and is otherwise as it was.
  abbrev pub Gains : {V : Type 0} → String → V → List (String × V) → List (String × V) → Type 0
  Gains {V} k v t t' = (j : String) → lookup j t' ≡ (if str_eq k j then some v else lookup j t)

  -- What a successful placement leaves, from the state `o` in which the node `n` was chosen.
  abbrev pub HasPlaced : Orchestrator F → Orchestrator F → Node F → List SecretFile → Type 0
  HasPlaced o o' n files =
      let id = o.ids (suc o.serial) in
      let order_id = o.ids (suc (suc o.serial)) in
      (w : Workload) × (m : Node F) × (a : Assignment) × IsPending now dep n id w
      × IsCharged now dep n m
      × IsOrder now dep n order_id id files a
      × Gains id w o.workloads o'.workloads
      × Gains n.id m o.nodes o'.nodes
      × Gains (join_key n.id order_id) a o.assignments o'.assignments

  pub send_ok :
      (w : Workload) (q : Orchestrator F) (files : List SecretFile)
      → resolve_secret_files_for_deployment dep q ≡ (ok files, q)
      → ((send now dep w q).0 ≡ ok tt)
        × ((send now dep w q).1.workloads ≡ q.workloads)
        × ((send now dep w q).1.nodes ≡ q.nodes)
        × ((send now dep w q).1.assignments
            ≡ insert
                (join_key w.node_id (q.ids q.serial))
                (record (create_assignment dep w files) { id = q.ids q.serial })
                q.assignments)
  unfolding send
  send_ok w q files e = ground (arith, e)

  pub send_err :
      (w : Workload) (q : Orchestrator F) (e : Error)
      → resolve_secret_files_for_deployment dep q ≡ (err e, q)
      → send now dep w q ≡ (err e, q)
  unfolding send
  send_err w q e h = ground (arith, h)

  -- The steps of a placement.
  pub create_steps :
      (o o₁ : Orchestrator F) (n : Node F)
      → place now dep o ≡ (ok n, o₁)
      → create_workload_for_deployment now dep o
        ≡ send now dep (new_workload now dep n (o₁.ids (suc o₁.serial))) (reserve now dep n o₁).1
  unfolding create_workload_for_deployment reserve
  create_steps o o₁ n h = rw h refl

  reserve-nodes :
      (o : Orchestrator F) (n : Node F) (id : String)
      → lookup id (reserve now dep n o).1.nodes ≡ (
          if str_eq n.id id
          then some (record (charged n dep.spec.resources) { last_seen = stamped n.last_seen now })
          else lookup id o.nodes)
  unfolding reserve
  reserve-nodes o n id = lookup-insert n.id id _ o.nodes

  reserve-workloads :
      (o : Orchestrator F) (n : Node F) (id : String)
      → lookup id (reserve now dep n o).1.workloads ≡ (
          if str_eq (o.ids (suc o.serial)) id
          then some (new_workload now dep n (o.ids (suc o.serial)))
          else lookup id o.workloads)
  unfolding reserve
  reserve-workloads o n id = lookup-insert (o.ids (suc o.serial)) id _ o.workloads

  reserve-rest :
      (o : Orchestrator F) (n : Node F)
      → ((reserve now dep n o).1.assignments ≡ o.assignments)
        × ((reserve now dep n o).1.secrets ≡ o.secrets)
        × ((reserve now dep n o).1.decrypt ≡ o.decrypt)
        × ((reserve now dep n o).1.ids ≡ o.ids)
        × ((reserve now dep n o).1.serial ≡ suc (suc o.serial))
  unfolding reserve
  reserve-rest o n = (refl, refl, refl, refl, refl)

  module _ (o o₁ : Orchestrator F) (n : Node F) (h : place now dep o ≡ (ok n, o₁)) where
    abbrev reserved : Orchestrator F
    reserved = (reserve now dep n o₁).1

    resolve-reserved :
        (r : Result (List SecretFile))
        → (resolve_secret_files_for_deployment dep o).0 ≡ r
        → resolve_secret_files_for_deployment dep reserved ≡ (r, reserved)
    resolve-reserved r e =
        let kept = subst (λ x. Kept o x.1) h (place-Kept o) in
        let rest = reserve-rest o₁ n in
        let same = resolve_same dep o reserved (kept.0 ∙ sym rest.1) (kept.1 ∙ sym rest.2) in
        ap₂ (λ a b. (a, b)) (sym same ∙ e) (resolve-state dep reserved)

    abbrev w : Workload
    w = new_workload now dep n (o₁.ids (suc o₁.serial))

    assignments-sent :
        (files : List SecretFile)
        → resolve_secret_files_for_deployment dep reserved ≡ (ok files, reserved)
        → (key : String)
        → lookup key (send now dep w reserved).1.assignments ≡ (
            if str_eq (join_key n.id (o₁.ids (suc (suc o₁.serial)))) key
            then some (record (create_assignment dep w files) { id = o₁.ids (suc (suc o₁.serial)) })
            else lookup key o₁.assignments)
    unfolding reserve
    assignments-sent files r key =
        ap (lookup key) (send_ok w reserved files r).3 ∙ lookup-insert _ key _ o₁.assignments

    -- Where a node is chosen and the deployment's secrets are there, a workload is placed: it is written
    -- as pending on that node, the node is charged with its resources, the assignment to create it
    -- waits under the node with the secrets' files, and nothing else of the three tables changes.
    pub create_ok :
        (files : List SecretFile)
        → (resolve_secret_files_for_deployment dep o).0 ≡ ok files
        → ((create_workload_for_deployment now dep o).0 ≡ ok tt)
          × HasPlaced o₁ (create_workload_for_deployment now dep o).1 n files
    create_ok files e =
        let sent = send_ok w reserved files (resolve-reserved (ok files) e) in
        let rest = reserve-rest o₁ n in
        rw (create_steps o o₁ n h) (
          sent.0,
          (
            w,
            record (charged n dep.spec.resources) { last_seen = stamped n.last_seen now },
            record (create_assignment dep w files) { id = o₁.ids (suc (suc o₁.serial)) },
            new_workload-IsPending now dep n w.id,
            charged-IsCharged now dep n,
            create_assignment-IsOrder now dep n w.id files _,
            λ id. ap (lookup id) sent.1 ∙ reserve-workloads o₁ n id,
            λ id. ap (lookup id) sent.2 ∙ reserve-nodes o₁ n id,
            assignments-sent files (resolve-reserved (ok files) e),
          ),
        )

    -- Where a node is chosen and a secret is missing, the placement fails, but the node stays charged and
    -- the workload stays written as pending, while no assignment was queued: no agent is told of it.
    pub create_unsent :
        (e : Error)
        → (resolve_secret_files_for_deployment dep o).0 ≡ err e
        → ((create_workload_for_deployment now dep o).0 ≡ err e)
          × (lookup w.id (create_workload_for_deployment now dep o).1.workloads ≡ some w)
          × (lookup n.id (create_workload_for_deployment now dep o).1.nodes
              ≡ some
                  (record (charged n dep.spec.resources) { last_seen = stamped n.last_seen now }))
          × ((create_workload_for_deployment now dep o).1.assignments ≡ o.assignments)
    create_unsent e f =
        let sent = send_err w reserved e (resolve-reserved (err e) f) in
        let kept = subst (λ x. Kept o x.1) h (place-Kept o) in
        let rest = reserve-rest o₁ n in
        rw (create_steps o o₁ n h ∙ sent) (
          refl,
          ground (arith, reserve-workloads o₁ n w.id, eq_iff w.id w.id),
          ground (arith, reserve-nodes o₁ n n.id, eq_iff n.id n.id),
          rest.0 ∙ sym kept.2,
        )
