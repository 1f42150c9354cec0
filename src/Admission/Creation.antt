-- ===== src/Admission/Creation.antt =====
-- What `CreateDeployment` leaves in the store.
use distributed_container_or.Base.{◌≡◌, refl, arith, some, ok, eq_iff}
use distributed_container_or.Model.Floats.{Float, Time}
use distributed_container_or.Model.Deploy.{Deployment, DeploymentStatus}
use distributed_container_or.Store.Table.{lookup, lookup-insert}
use distributed_container_or.Store.State.{Orchestrator}
use distributed_container_or.Status.{reconcile_deployment}
use distributed_container_or.Admission.{concluded, conclude}

module _ {F : Type 0} ⦃fl : Float F⦄ (now : Time) where
  -- Whatever the pass over a new deployment did, the store holds the deployment afterwards as it was
  -- made before the pass, but running: what the pass wrote of its status is lost, also where no
  -- workload of it was placed. The workloads and the assignments are those of the pass.
  pub conclude_overwrites :
      (o q : Orchestrator F) (dep : Deployment F)
      → reconcile_deployment now dep.id o ≡ (ok tt, q)
      → ((conclude now dep o).0 ≡ ok (concluded now dep))
        × (lookup dep.id (conclude now dep o).1.deployments ≡ some (concluded now dep))
        × ((concluded now dep).status ≡ DeploymentStatus.running)
        × ((concluded now dep).rollout_status ≡ dep.rollout_status)
        × ((conclude now dep o).1.workloads ≡ q.workloads)
        × ((conclude now dep o).1.assignments ≡ q.assignments)
  unfolding conclude
  conclude_overwrites o q dep pass = rw pass (
    refl,
    ground (
      arith,
      lookup-insert dep.id dep.id (concluded now dep) q.deployments,
      eq_iff dep.id dep.id,
    ),
    refl,
    refl,
    refl,
    refl,
  )
