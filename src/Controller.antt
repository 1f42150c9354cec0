-- ===== src/Controller.antt =====
-- internal/controller/manager.go, and the passes over the whole cluster: ReconcileAll
-- (internal/service/orchestrator.go), ReconcileShard and RecoverCluster (internal/service/features.go).
pub mod Shards
pub mod Standby
pub mod Steps
pub mod Pass
use Prim.Native.Nat.{bit_xor}
use distributed_container_or.Base.{
  ℕ, zero, ◌+◌, ◌*◌, ◌/◌, ◌%◌, ◌^◌, ◌-◌, String, Bool, true, false, not, List, [], ◌∷◌, ◌++◌, ℤ,
  pos, ltb_ℤ, leb_ℤ, eqb_ℤ, ltb, if◌then◌else◌, codes, pos_part, Option, none, some, Result, ok,
  err, Error,
}
use distributed_container_or.Model.Floats.{Float, Time, second}
use distributed_container_or.Model.Deploy.{Deployment, Message, of_error}
use distributed_container_or.Model.Storage.{EventLevel, ControllerLease}
use distributed_container_or.Admission.{Admit}
use distributed_container_or.Status.{reconcile_deployment}
use distributed_container_or.Deletion.{reconcile_deletion}
use distributed_container_or.Autoscaling.{reconcile_autoscaling}
use distributed_container_or.Liveness.{evaluate_workload_health}
use distributed_container_or.Services.{reconcile_all_service_endpoints}
use distributed_container_or.Volumes.{reconcile_pvc_bindings}
use distributed_container_or.Jobs.{reconcile_jobs_and_cron}
use distributed_container_or.Health.{update_node_health}
use distributed_container_or.Lease.{
  try_acquire_controller_leadership, release_controller_leadership,
}
use distributed_container_or.Store.{list_deployments, emit_event}
use distributed_container_or.Store.State.{
  Orchestrator, M, ◌>>=◌, ◌>>◌, pure, fail, done, outcome, ignore, for_each,
}

-- The UTF-8 bytes of a character.
unfoldable pub utf8 : ℕ → List ℕ
utf8 c =
    if ltb c 0x80
    then c ∷ []
    else if ltb c 0x800
    then (0xc0 + c / 64) ∷ (0x80 + c % 64) ∷ []
    else if ltb c 0x10000
    then (0xe0 + c / 4_096) ∷ (0x80 + c / 64 % 64) ∷ (0x80 + c % 64) ∷ []
    else (0xf0 + c / 262_144)
      ∷ (0x80 + c / 4_096 % 64)
      ∷ (0x80 + c / 64 % 64)
      ∷ (0x80 + c % 64)
      ∷ []

unfoldable pub bytes : List ℕ → List ℕ
unfolding utf8
bytes [] = []
bytes (c ∷ cs) = utf8 c ++ bytes cs

-- FNV-1a over 32 bits.
unfoldable pub fnv32a : ℕ → List ℕ → ℕ
fnv32a h [] = h
fnv32a h (b ∷ bs) = fnv32a (bit_xor h b * 16_777_619 % 2 ^ 32) bs

abbrev pub hash_of : String → ℕ
hash_of id = fnv32a 2_166_136_261 (bytes (codes id))

-- `uint32(shardCount)` is the low 32 bits.
unfoldable pub belongs_to_shard : String → ℤ → ℤ → Bool
unfolding fnv32a bytes
belongs_to_shard id shard_index shard_count =
    eqb_ℤ (pos (hash_of id % (pos_part shard_count % 2 ^ 32))) shard_index

abbrev pub is_deleted : Option Time → Bool
is_deleted none = false
is_deleted (some _) = true

module _ {F : Type 0} where
  -- `if err := step(); err != nil { emit }`.
  abbrev pub logged : Time → String → String → String → M F Unit → M F Unit
  logged now type reason deployment_id step = do
    r ← outcome step
    elim r [
      | ok _ ↦ done
      | err e ↦
          ignore (emit_event now EventLevel.error type reason (of_error e) deployment_id "" "")
    ]

module _ {F : Type 0} ⦃fl : Float F⦄ where
  abbrev pub reconcile_one : Time → Deployment F → M F Unit
  reconcile_one now dep =
      if is_deleted dep.deletion_timestamp
      then reconcile_deletion now dep.id
      else reconcile_deployment now dep.id

  unfoldable pub reconcile_logged : Time → Deployment F → M F Unit
  reconcile_logged now dep =
      logged now "reconcile"
        (if is_deleted dep.deletion_timestamp then "ReconcileDeletionFailed" else "ReconcileFailed")
        dep.id (reconcile_one now dep)

  unfoldable pub reconcile_all : Time → Admit F → M F Unit
  unfolding list_deployments reconcile_logged
  reconcile_all now admit = do
    deployments ← list_deployments
    for_each deployments (reconcile_logged now)
    logged now "autoscaler" "AutoscalerReconcileFailed" "" (reconcile_autoscaling now)
    logged now "health" "WorkloadHealthCheckFailed" "" (evaluate_workload_health now)
    logged now "service" "ServiceEndpointReconcileFailed" "" (reconcile_all_service_endpoints now)
    logged now "storage" "PVCBindingReconcileFailed" "" (reconcile_pvc_bindings now)
    logged now "job" "JobReconcileFailed" "" (reconcile_jobs_and_cron now admit)
    update_node_health now

  unfoldable pub reconcile_member : Time → ℤ → ℤ → Deployment F → M F Unit
  reconcile_member now shard_index shard_count dep =
      if belongs_to_shard dep.id shard_index shard_count
      then ignore (reconcile_one now dep)
      else done

  unfoldable pub reconcile_shard : Time → Admit F → ℤ → ℤ → M F Unit
  unfolding list_deployments reconcile_member reconcile_all
  reconcile_shard now admit shard_index shard_count =
      if leb_ℤ shard_count (pos 1) then reconcile_all now admit else (do
        deployments ← list_deployments
        for_each deployments (reconcile_member now shard_index shard_count)
        if not (eqb_ℤ shard_index (pos 0)) then done else (do
          reconcile_autoscaling now
          evaluate_workload_health now
          reconcile_all_service_endpoints now
          reconcile_pvc_bindings now
          reconcile_jobs_and_cron now admit)
        update_node_health now)

  unfoldable pub recover_cluster : Time → Admit F → M F Unit
  unfolding reconcile_all
  recover_cluster now admit = do
    reconcile_pvc_bindings now
    reconcile_jobs_and_cron now admit
    reconcile_all now admit

-- The manager without its orchestrator and its ticker.
pub record Manager : Type 0 where
  pub controller_id : String
  pub shard_index : ℤ
  pub shard_total : ℤ
  pub lease : ℤ

-- `i % n` of an index that is not negative.
abbrev pub rem_ℤ : ℤ → ℤ → ℤ
rem_ℤ i n = pos (pos_part i % pos_part n)

unfoldable pub new_manager : String → ℤ → ℤ → ℤ → Manager
new_manager id shard_index shard_total lease =
    let total = if leb_ℤ shard_total (pos 0) then pos 1 else shard_total in
    let index = if ltb_ℤ shard_index (pos 0) then pos 0 else shard_index in
    record {
      controller_id = id;
      shard_index = if leb_ℤ total index then rem_ℤ index total else index;
      shard_total = total;
      lease = if leb_ℤ lease (pos 0) then pos (10 * second) else lease;
    }

-- What the manager's loop waits for.
pub data Wake : Type 0 where
  tick : Time → Wake
  stop : Time → Wake

module _ {F : Type 0} ⦃fl : Float F⦄ where
  unfoldable pub on_tick : Time → Admit F → Manager → M F Unit
  unfolding reconcile_shard
  on_tick now admit m = do
    r ← outcome (try_acquire_controller_leadership now m.controller_id m.lease)
    elim r [
      | err _ ↦ done
      | ok (leader, lease) ↦
          if not leader
          then done
          else ignore (reconcile_shard now admit m.shard_index m.shard_total)
    ]

  unfoldable pub run : Admit F → Manager → List Wake → M F Unit
  unfolding on_tick release_controller_leadership
  run admit m [] = done
  run admit m (stop now ∷ ws) = ignore (release_controller_leadership now m.controller_id)
  run admit m (tick now ∷ ws) = on_tick now admit m >> run admit m ws
