-- ===== src/Placement/Writes.antt =====
-- The workload, the node and the assignment that placing a workload writes, field by field.
use distributed_container_or.Base.{add64, ◌≡◌, refl, String, List}
use distributed_container_or.Model.Floats.{Float, Time}
use distributed_container_or.Model.Cluster.{
  Node, Workload, WorkloadStatus, Assignment, Action, SecretFile,
}
use distributed_container_or.Model.Deploy.{Deployment}
use distributed_container_or.Store.{stamped}
use distributed_container_or.Placement.{new_workload, charged, create_assignment}

module _ {F : Type 0} ⦃fl : Float F⦄ (now : Time) (dep : Deployment F) where
  -- A new workload of the deployment, pending on the node.
  pub record IsPending (n : Node F) (id : String) (w : Workload) : Type 0 where
    pub own_id : w.id ≡ id
    pub deployment : w.deployment_id ≡ dep.id
    pub node : w.node_id ≡ n.id
    pub status : w.status ≡ WorkloadStatus.pending
    pub container : w.container_id ≡ ""
    pub image : w.image ≡ dep.spec.image
    pub resources : w.resources ≡ dep.spec.resources
    pub priority : w.priority ≡ dep.spec.priority
    pub version : w.version ≡ dep.current_revision

  -- The node with the deployment's resources added to its use.
  pub record IsCharged (n m : Node F) : Type 0 where
    pub milli_cpu : m.used.milli_cpu ≡ add64 n.used.milli_cpu dep.spec.resources.milli_cpu
    pub memory_mb : m.used.memory_mb ≡ add64 n.used.memory_mb dep.spec.resources.memory_mb
    pub allocatable : m.allocatable ≡ n.allocatable
    pub status : m.status ≡ n.status

  -- The assignment that tells the node to create the workload.
  pub record IsOrder (n : Node F) (id workload_id : String) (files : List SecretFile)
      (a : Assignment) : Type 0 where
    pub own_id : a.id ≡ id
    pub action : a.action ≡ Action.create
    pub node : a.node_id ≡ n.id
    pub workload : a.workload_id ≡ workload_id
    pub image : a.image ≡ dep.spec.image
    pub image_pull_secret : a.image_pull_secret ≡ dep.spec.image_pull_secret
    pub secret_files : a.secret_files ≡ files
    pub resources : a.resources ≡ dep.spec.resources

  pub new_workload-IsPending :
      (n : Node F) (id : String) → IsPending n id (new_workload now dep n id)
  new_workload-IsPending n id = record {
    own_id = refl;
    deployment = refl;
    node = refl;
    status = refl;
    container = refl;
    image = refl;
    resources = refl;
    priority = refl;
    version = refl;
  }

  pub charged-IsCharged :
      (n : Node F)
      → IsCharged n (record (charged n dep.spec.resources) { last_seen = stamped n.last_seen now })
  charged-IsCharged n = record {
    milli_cpu = refl;
    memory_mb = refl;
    allocatable = refl;
    status = refl;
  }

  pub create_assignment-IsOrder :
      (n : Node F) (workload_id : String) (files : List SecretFile) (id : String)
      → IsOrder n id workload_id files
          (record (create_assignment dep (new_workload now dep n workload_id) files) { id = id })
  create_assignment-IsOrder n workload_id files id = record {
    own_id = refl;
    action = refl;
    node = refl;
    workload = refl;
    image = refl;
    image_pull_secret = refl;
    secret_files = refl;
    resources = refl;
  }
