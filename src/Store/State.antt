-- ===== src/Store/State.antt =====
-- The orchestrator with its store (internal/service/orchestrator.go: `Orchestrator`), and handlers as
-- functions of it: a result with the state that the handler leaves, also where it fails.
use distributed_container_or.Base.{
  ℕ, String, List, [], ◌∷◌, Option, Result, ok, err, Error, none, some, not_found,
}
use distributed_container_or.Model.Cluster.{Node, Workload, Assignment}
use distributed_container_or.Model.Deploy.{Deployment}
use distributed_container_or.Model.Storage.{
  Namespace, NamespaceQuota, Secret, PersistentVolume, PersistentVolumeClaim, NetworkPolicy,
  RoleBinding, ControllerLease, ControlPlaneTransition, Service, ServiceEndpoint, Event,
  NodeHealthSample,
}
use distributed_container_or.Model.Work.{Job, CronJob, DeploymentMetricSample, AutoscalerPolicy}
use distributed_container_or.Scheduler.{Planner}
use distributed_container_or.Balancer.{Balancer}

abbrev pub Entries : Type 0 → Type 0
Entries V = List (String × V)

-- `ids` are the identifiers that time and the random generator make, in the order of use; `serial`
-- is the number used. `decrypt` is the secrets' cipher under the KMS key, if there is a key.
pub record Orchestrator (F : Type 0) : Type 0 where
  pub scheduler : Planner F
  pub balance : Balancer
  pub node_ttl : ℕ
  pub health_samples : String → List (NodeHealthSample F)
  pub nodes : Entries (Node F)
  pub deployments : Entries (Deployment F)
  pub workloads : Entries Workload
  pub assignments : Entries Assignment
  pub services : Entries Service
  pub endpoints : Entries ServiceEndpoint
  pub namespaces : Entries Namespace
  pub quotas : Entries NamespaceQuota
  pub secrets : Entries Secret
  pub volumes : Entries PersistentVolume
  pub claims : Entries PersistentVolumeClaim
  pub policies : Entries NetworkPolicy
  pub role_bindings : Entries RoleBinding
  pub autoscalers : Entries (AutoscalerPolicy F)
  pub metrics : Entries (DeploymentMetricSample F)
  pub jobs : Entries (Job F)
  pub cron_jobs : Entries (CronJob F)
  pub lease : Option ControllerLease
  pub transitions : List ControlPlaneTransition
  pub events : List Event
  pub serial : ℕ
  pub ids : ℕ → String
  pub decrypt : Option (String → Option String)

abbrev pub M : Type 0 → Type 0 → Type 0
M F A = Orchestrator F → Result A × Orchestrator F

module _ {F : Type 0} where
  abbrev pub and_then :
      {A B : Type 0} → Result A × Orchestrator F → (A → M F B) → Result B × Orchestrator F
  and_then (ok a, o) f = f a o
  and_then (err e, o) f = (err e, o)

  infixl 5 ◌>>=◌ ◌>>◌
  abbrev pub ◌>>=◌ : {A B : Type 0} → M F A → (A → M F B) → M F B
  ◌>>=◌ m f o = and_then (m o) f

  abbrev pub ◌>>◌ : {B : Type 0} → M F Unit → M F B → M F B
  m >> k = m >>= λ _. k

  abbrev pub pure : {A : Type 0} → A → M F A
  pure a o = (ok a, o)

  abbrev pub fail : {A : Type 0} → Error → M F A
  fail e o = (err e, o)

  abbrev pub read : {A : Type 0} → (Orchestrator F → A) → M F A
  read f o = (ok (f o), o)

  abbrev pub modify : (Orchestrator F → Orchestrator F) → M F Unit
  modify f o = (ok tt, f o)

  -- `x, err := m`: the error is a value.
  abbrev pub outcome : {A : Type 0} → M F A → M F (Result A)
  outcome m o = (ok (m o).0, (m o).1)

  -- `_ = m`.
  abbrev pub ignore : {A : Type 0} → M F A → M F Unit
  ignore m o = (ok tt, (m o).1)

  abbrev pub done : M F Unit
  done = pure tt

  abbrev pub or_not_found : {A : Type 0} → Option A → M F A
  or_not_found none = fail not_found
  or_not_found (some a) = pure a

  -- `for _, x := range xs { if err := body(x); err != nil { return err } }`.
  unfoldable pub for_each : {A : Type 0} → List A → (A → M F Unit) → M F Unit
  for_each [] body = done
  for_each (x ∷ xs) body = body x >> for_each xs body
