-- ===== src/Worker/Silence.antt =====
-- A log of the reports, and what leaves it as it was: the files and the containers of the agent.
use Prim.Native.String.{◌++◌ as append}
use distributed_container_or.Base.{
  ℕ, zero, suc, ◌+◌, ◌==◌, ◌≡◌, refl, ◌∙◌, inl, inr, String, List, [], ◌∷◌, ◌++◌, ℤ, arith,
  Option-cases, Result-cases, Bool-cases,
}
use distributed_container_or.Model.Cluster.{WorkloadStatus, Assignment, SecretFile}
use distributed_container_or.Worker.Paths.{secret_name}
use distributed_container_or.Worker.Interfaces.{AssignmentClient, Runtime, Host}
use distributed_container_or.Worker.{
  Runner, remove_all, cleanup_secret_files, write_files, materialize_secret_files, backoff_after,
  retry,
}

module _ {F W : Type 0} (client : AssignmentClient F W) (runtime : Runtime W) (host : Host W)
    (reports : W → List (String × WorkloadStatus)) where
  -- What a world keeps of the reports: those that the client delivers, in their order, and no others.
  pub record IsLog : Type 0 where
    pub reported :
        (id : String) (s : WorkloadStatus) (c : String) (w : W)
        → reports (client.report_workload_status id s c w).1 ≡ reports w ++ (id, s) ∷ []
    pub polled :
        (id : String) (limit : ℤ) (w : W)
        → reports (client.poll_assignments id limit w).1 ≡ reports w
    pub ran :
        (id image secret : String) (w : W)
        → reports (runtime.run_workload id image secret w).1 ≡ reports w
    pub stopped : (id c : String) (w : W) → reports (runtime.stop_workload id c w).1 ≡ reports w
    pub made : (dir : String) (w : W) → reports (host.make_dir dir w).1 ≡ reports w
    pub wrote : (path text : String) (w : W) → reports (host.write_file path text w).1 ≡ reports w
    pub removed : (path : String) (w : W) → reports (host.remove_file path w) ≡ reports w
    pub waited : (d : ℤ) (w : W) → reports (host.wait d w).1 ≡ reports w

  module _ (log : IsLog) where
    remove_all-keeps :
        (ps : List String) (w : W) → reports (remove_all client runtime host ps w) ≡ reports w
    unfolding remove_all
    remove_all-keeps [] w = refl
    remove_all-keeps (p ∷ ps) w = remove_all-keeps ps (host.remove_file p w) ∙ log.removed p w

    pub cleanup-keeps :
        (id : String) (r : Runner) (w : W)
        → reports (cleanup_secret_files client runtime host id (r, w)).1 ≡ reports w
    unfolding cleanup_secret_files
    cleanup-keeps id r w = ground (
      arith,
      remove_all-keeps (r.secret_files id) w,
      log.removed (host.secret_dir id) (remove_all client runtime host (r.secret_files id) w),
    )

    write_files-keeps :
        (dir : String) (fs : List SecretFile) (w : W)
        → reports (write_files client runtime host dir fs w).1 ≡ reports w
    unfolding write_files
    write_files-keeps dir [] w = refl
    write_files-keeps dir (f ∷ fs) w = elim (Option-cases (secret_name f.path)) [
      | inl e ↦ rw (e, write_files) (write_files-keeps dir fs w)
      | inr (name, e) ↦
          let target = append dir (append "/" name) in
          let after = (host.write_file target f.content w).1 in
          elim (Result-cases (host.write_file target f.content w).0) [
            | inl (x, wrote) ↦
                elim (Result-cases (write_files client runtime host dir fs after).0) [
                  | inl (y, rest) ↦
                      rw (e, wrote, rest, write_files)
                        (write_files-keeps dir fs after ∙ log.wrote target f.content w)
                  | inr (y, rest) ↦
                      rw (e, wrote, rest, write_files)
                        (write_files-keeps dir fs after ∙ log.wrote target f.content w)
                ]
            | inr (x, failed) ↦ rw (e, failed, write_files) (log.wrote target f.content w)
          ]
    ]

    pub retry-keeps :
        (left attempt : ℕ) (backoff : ℤ) (a : Assignment) (w : W)
        → reports (retry client runtime host left attempt backoff a w).1 ≡ reports w
    unfolding retry
    retry-keeps zero attempt backoff a w = refl
    retry-keeps (suc left) attempt backoff a w =
        let first = runtime.run_workload a.workload_id a.image a.image_pull_secret w in
        let waited = host.wait (backoff_after backoff attempt) first.1 in
        let kept = log.ran a.workload_id a.image a.image_pull_secret w in
        let kept_on = log.waited (backoff_after backoff attempt) first.1 ∙ kept in
        elim (Result-cases first.0) [
          | inl (c, ran) ↦ rw (ran, retry) kept
          | inr (x, failed) ↦ elim (Bool-cases (left == 0)) [
            | inl last ↦ rw (failed, last, retry) kept
            | inr more ↦ elim (Bool-cases waited.0) [
              | inl cut ↦ rw (failed, more, cut, retry) kept_on
              | inr on ↦
                  rw (failed, more, on, retry)
                    (retry-keeps left (attempt + 1) backoff a waited.1 ∙ kept_on)
            ]
          ]
        ]

    -- Whatever comes of it, the files of a workload leave no report.
    pub materialize-keeps :
        (id : String) (fs : List SecretFile) (r : Runner) (w : W)
        → reports (materialize_secret_files client runtime host id fs (r, w)).1.1 ≡ reports w
    unfolding materialize_secret_files
    materialize-keeps id [] r w = refl
    materialize-keeps id (f ∷ fs) r w =
        let dir = host.secret_dir id in
        let after = (host.make_dir dir w).1 in
        elim (Result-cases (host.make_dir dir w).0) [
          | inl (x, made) ↦
              let kept = write_files-keeps dir (f ∷ fs) after ∙ log.made dir w in
              elim (Result-cases (write_files client runtime host dir (f ∷ fs) after).0) [
                | inl (y, wrote) ↦ rw (made, wrote, materialize_secret_files) kept
                | inr (y, failed) ↦ rw (made, failed, materialize_secret_files) kept
              ]
          | inr (x, failed) ↦ rw (failed, materialize_secret_files) (log.made dir w)
        ]
