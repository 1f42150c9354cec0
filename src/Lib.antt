-- ===== src/Lib.antt =====
-- A model of the container orchestrator's control plane and the theorems about it.
--
-- The program: an API server keeps the cluster's state in an embedded store (internal/store) and
-- reconciles it (internal/service). A pass over a deployment compares its active workloads with its
-- replicas, asks the scheduler (internal/scheduler) for a node for each workload that is missing, and
-- queues assignments that the agents of the nodes poll. Controllers share the work under a lease.
--
-- The files and the code:
--   Base, and the files below it: numbers, lists, texts, sorting and errors. `int` and `int64` are
--     integers with the wrap-around of 64 bits written out (`add64`, `sub64`, `mul64`).
--   Model: internal/model/types.go, a record or a data type for each type that is used.
--   Scheduler: internal/scheduler/scheduler.go. `select_node` is SelectNode; the plugins are functions,
--     and what an external plugin's process answers is a parameter, `Planner.external`.
--   Balancer: internal/loadbalancer/balancer.go. `select` and `release`.
--   Store: internal/store/store.go. `Store/State` holds the orchestrator with its store as one record
--     and the handlers' type: a function of that record to a result and the record it leaves, also
--     where it fails. `Store/Table` has the entries under one key prefix, in key order; Store/Traffic,
--     Store/Work and Store/Access have the tables of services, of jobs and metrics, and of roles.
--   Rollout, Replicas, Reconcile, Status: internal/service/orchestrator.go, reconcileDeployment. Rollout
--     has the pure helpers, Replicas the arithmetic, Reconcile the steps that create and delete, Status
--     the status that a pass leaves and the whole handler.
--   Placement: createWorkloadForDeployment, tryPreemptForPriority, enqueueDeleteForWorkload. Secrets: the
--     files that a deployment mounts, decrypted where there is a key (internal/service/features.go), and
--     UpsertSecret, which encrypts them.
--   Quota: CreateNamespace, UpsertNamespaceQuota, enforceNamespaceQuota.
--   Volumes and Lease: internal/service/features.go, the binding of volume claims and the leadership of
--     the controllers.
--   Nodes, Health, Rebalance: the nodes' part of internal/service: heartbeats, remediation, draining and
--     removal; the health pass and the trends of its samples (Health/Trends); registration with the
--     rebalancing that it starts.
--   Reports: PollAssignments and ReportWorkloadStatus. Deletion: DeleteDeployment and
--     reconcileDeletion. Rollback: RollbackDeployment and the rollback after failures. Admission:
--     CreateDeployment; what the admission plugin's process answers is its parameter `admit`.
--   Updates: UpdateDeployment. reflect.DeepEqual on two specs is its parameter `same`, since the model
--     does not tell nil from empty; NextSpec says whether labels and tolerations were given.
--   Network: network policies and IsNetworkAccessAllowed (internal/service/features.go).
--   Services: CreateService, the endpoints that a pass gives a service, the choice of an endpoint and
--     RouteServiceTraffic. `endpoints_of` is the double loop of reconcileServiceEndpoints.
--   Roles: UpsertRoleBinding and EffectiveRolesForSubject (internal/service/features.go).
--   Autoscaling: policies, metrics and reconcileAutoscaling with aggregateMetrics and predictMetrics.
--     Liveness: evaluateWorkloadHealth. Jobs: jobs and cron jobs (internal/service/features.go).
--   Controller: internal/controller/manager.go with ReconcileAll, ReconcileShard and RecoverCluster, the
--     passes that call all the others. `on_tick` is what Run does at one tick.
--   Validation: internal/api/validation.go; `none` where a request passes.
--   Auth: internal/auth/auth.go. The token library, the HTTP client and the decoding of base 64 are
--     parameters (TokenLibrary, Jwks). Auth/Keys has the cache of a provider's keys, Auth/Claims what is
--     read from claims.
--   Access: internal/api/httpserver.go, the middleware: `handler` is the chain around the endpoints, which
--     are not modelled; `rules` are the tests of requiredRoles in their order.
--   Worker: internal/worker/runner.go, over its interfaces AssignmentClient and Runtime, and a Host for
--     the files, the waits and the order of a map's keys. Worker/Joint has the orchestrator's handlers as
--     the agent's client.
--   Samples: concrete values, and the theorems at them.
--
-- How the code is read:
--   A handler reads the clock once: `now` is the instant of every time that the handler writes. A
--     `Time` is the nanoseconds since Go's zero time.
--   Identifiers that the code makes from the clock and a random number come from a supply, `ids`,
--     at the next number, `serial`.
--   Calls of the Badger store and of the JSON encoder are taken to succeed; what fails is what the code
--     itself decides, such as a missing key. The mutex makes each handler one step.
--   float64 is a parameter: a type with the operations that the code calls (`Model/Floats`). The
--     theorems that compare floating-point numbers say what order they need.
--   Errors that the code formats keep the format as their text. `int64(age.Seconds())` is the whole
--     seconds of the age.
--   Letter case is folded in ASCII. Maps are association lists or functions. The event log is in the order of
--     emission, while the store's keys put it in the order of formatted times.
--   Loops run over a list or down from a number, so they need no fuel, but for one: the recursion of
--     EffectiveRolesForSubject over Inherits. `visit` takes the depth as its fuel and returns `none`
--     where this runs out; any depth above the longest chain of parents is enough.
--   A cluster address is made from a time that is after 1970. A shard is the FNV-1a hash of the UTF-8
--     bytes of an identifier. The event of a scaling leaves out the figures after the replicas.
--
-- Not modelled: the endpoints of the servers, the HTTP client of the agent, the container runtimes, the
-- processes around the API server and the agent, configuration, and the code generated from the
-- protocol; these are transport, processes and third-party calls.
pub mod Base
pub mod Model
pub mod Scheduler
pub mod Balancer
pub mod Rollout
pub mod Store
pub mod Lease
pub mod Quota
pub mod Volumes
pub mod Replicas
pub mod Secrets
pub mod Placement
pub mod Reconcile
pub mod Status
pub mod Nodes
pub mod Health
pub mod Rebalance
pub mod Reports
pub mod Deletion
pub mod Rollback
pub mod Admission
pub mod Network
pub mod Services
pub mod Roles
pub mod Autoscaling
pub mod Liveness
pub mod Jobs
pub mod Controller
pub mod Updates
pub mod Validation
pub mod Worker
pub mod Auth
pub mod Access
pub mod Samples
