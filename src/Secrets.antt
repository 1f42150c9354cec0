-- ===== src/Secrets.antt =====
-- internal/service/features.go: the files that a deployment mounts from its secrets.
pub mod Reading
pub mod Writing
use Prim.Native.Char.{Char, code}
use Prim.Native.String.{◌++◌ as append}
use distributed_container_or.Base.{
  ℕ, suc, ◌+◌, String, Bool, true, false, not, ◌&&◌, ◌||◌, List, [], ◌∷◌, ◌++◌, map, ℤ, pos, add64,
  sub64, ltb_ℤ, leb_ℤ, eqb_ℤ, ltb, ◌==◌, str_eq, str_lt, if◌then◌else◌, is_blank, trim_space,
  cut_prefix, find, keep, slice_stable, Option, none, some, Result, ok, err, Error,
  no_schedulable_node,
}
use distributed_container_or.Model.Floats.{Float, Time}
use distributed_container_or.Model.Cluster.{
  Resource, Labels, Node, Workload, WorkloadStatus, Assignment, Action, SecretFile, VolumeMount,
  is_ready,
}
use distributed_container_or.Model.Deploy.{
  Deployment, DeploymentSpec, SecretMountSpec, Message, text,
}
use distributed_container_or.Model.Storage.{EventLevel, Secret}
use distributed_container_or.Store.State.{
  Orchestrator, M, ◌>>=◌, ◌>>◌, pure, fail, read, done, outcome, ignore, for_each,
}
use distributed_container_or.Store.{
  list_nodes, list_workloads, upsert_node, upsert_workload, delete_workload, get_secret,
  enqueue_assignment, emit_event, fresh_id,
}
use distributed_container_or.Scheduler.{select_node}
use distributed_container_or.Rollout.{floor_zero}

-- `strings.TrimRight(s, "/")`.
drop_slash : Char → String → String
drop_slash c String.[] = if code c == b'/' then String.[] else String.◌∷◌ c String.[]
drop_slash c (String.◌∷◌ d s) = String.◌∷◌ c (String.◌∷◌ d s)

unfoldable pub trim_slashes : String → String
unfolding drop_slash
trim_slashes String.[] = String.[]
trim_slashes (String.◌∷◌ c s) = drop_slash c (trim_slashes s)

-- `decryptSecretData` at one value, where there is a key.
unfoldable pub decrypt_value : (String → Option String) → String → String
decrypt_value cipher v = elim (cut_prefix v "enc:v1:") [
  | none ↦ v
  | some enc ↦ elim (cipher enc) [ some raw ↦ raw | none ↦ v ]
]

unfoldable pub decrypt_secret_data : Option (String → Option String) → Labels → Labels
unfolding decrypt_value
decrypt_secret_data none m = m
decrypt_secret_data (some cipher) m = map (λ (k, v). (k, decrypt_value cipher v)) m

abbrev pub secret_file : String → String × String → SecretFile
secret_file mount_path (k, v) =
    let base = trim_slashes (trim_space mount_path) in
    let dir : String = if str_eq base "" then "/etc/secrets" else base in
    record { path = append dir (append "/" k); content = v }

abbrev pub by_path : SecretFile → SecretFile → Bool
by_path a b = str_lt a.path b.path

module _ {F : Type 0} where
  unfoldable pub secret_files_of : Deployment F → List SecretMountSpec → M F (List SecretFile)
  secret_files_of dep [] = pure []
  secret_files_of dep (sm ∷ sms) =
      let rest = secret_files_of dep sms in
      if is_blank sm.secret_name then rest else (do
        secret ← get_secret dep.spec.namespace sm.secret_name
        cipher ← read (λ o. o.decrypt)
        files ← rest
        pure
            (map (secret_file sm.mount_path) (decrypt_secret_data cipher secret.contents) ++ files))

  unfoldable pub resolve_secret_files_for_deployment : Deployment F → M F (List SecretFile)
  unfolding secret_files_of get_secret
  resolve_secret_files_for_deployment dep = do
    files ← secret_files_of dep dep.spec.secret_mounts
    pure (slice_stable by_path files)
