-- ===== src/Rollback/Revisions.antt =====
-- The history of revisions: rollbacks keep it in order, and can be undone.
use distributed_container_or.Base.{
  ℕ, ◌+◌, ◌<◌, ◌^◌, ◌≡◌, refl, false, List, [], ◌∷◌, ◌++◌, ℤ, pos, add64, add64_pos, ◌≤ℤ◌, arith,
  All, some, ap, ◌∙◌,
}
use distributed_container_or.Model.Floats.{Float, Time}
use distributed_container_or.Model.Deploy.{Deployment, DeploymentRevision}
use distributed_container_or.Rollout.{normalize_rollout_spec}
use distributed_container_or.Rollout.Spec.{
  IsNormal, normalize_rollout_spec_fixed, normalize_rollout_spec-IsNormal,
}
use distributed_container_or.Reconcile.{find_revision}
use distributed_container_or.Rollback.{rolled_back}

module _ {F : Type 0} ⦃fl : Float F⦄ where
  -- The history has the current spec under the current revision, a number, and no later revision.
  pub record IsRecorded (dep : Deployment F) (n : ℕ) (e : DeploymentRevision F) : Type 0 where
    pub current : dep.current_revision ≡ pos n
    pub found : find_revision (pos n) dep.revision_history ≡ some e
    pub same : e.spec ≡ dep.spec
    pub normal : IsNormal dep.spec.rollout
    pub not_later : All (λ r. r.revision ≤ℤ pos n) dep.revision_history

  find-append :
      (rev : ℤ) (e last : DeploymentRevision F) (rs : List (DeploymentRevision F))
      → find_revision rev rs ≡ some e
      → find_revision rev (rs ++ last ∷ []) ≡ some e
  find-append rev e last [] h = cc h
  find-append rev e last (r ∷ rs) h = ground (arith, find-append rev e last rs)

  pub find-new :
      (n : ℕ) (last : DeploymentRevision F) (rs : List (DeploymentRevision F))
      → All (λ r. r.revision ≤ℤ pos n) rs
      → last.revision ≡ pos (n + 1)
      → find_revision (pos (n + 1)) (rs ++ last ∷ []) ≡ some last
  find-new n last [] a e = ground arith
  find-new n last (r ∷ rs) a e = ground (arith, a.0, find-new n last rs a.1 e)

  pub All-append :
      (n : ℕ) (last : DeploymentRevision F) (rs : List (DeploymentRevision F))
      → All (λ r. r.revision ≤ℤ pos n) rs
      → last.revision ≡ pos (n + 1)
      → All (λ r. r.revision ≤ℤ pos (n + 1)) (rs ++ last ∷ [])
  All-append n last [] a e = (ground arith, tt)
  All-append n last (r ∷ rs) a e = (omega (arith, a.0), All-append n last rs a.1 e)

  abbrev pub entry : Time → Deployment F → ℕ → DeploymentRevision F → DeploymentRevision F
  entry now dep n target = record {
    revision = add64 dep.current_revision (pos 1);
    spec = record target.spec { rollout = normalize_rollout_spec (target.spec).rollout };
    created_at = now;
  }

  -- A rollback to a revision of the history gives the next revision that revision's spec, normalised,
  -- and leaves the history with this spec under it and with no later one.
  pub rolled_back-IsRecorded :
      fl.lt (fl.of_int (pos 0)) (fl.of_int (pos 0)) ≡ false
      → (now : Time) (k : ℤ) (dep : Deployment F) (n : ℕ) (e target : DeploymentRevision F)
      → IsRecorded dep n e
      → n + 1 < 2 ^ 63
      → IsRecorded (rolled_back now k dep target) (n + 1) (entry now dep n target)
  unfolding rolled_back
  rolled_back-IsRecorded zero now k dep n e target r h =
      let next : add64 dep.current_revision (pos 1) ≡ pos (n + 1) =
        ap (λ c. add64 c (pos 1)) r.current ∙ add64_pos n 1 h in
      record {
        current = next;
        found = find-new n (entry now dep n target) dep.revision_history r.not_later next;
        same = refl;
        normal = normalize_rollout_spec-IsNormal zero (target.spec).rollout;
        not_later = All-append n (entry now dep n target) dep.revision_history r.not_later next;
      }

  -- A rollback can be undone: the revision that was current before it is still found in the history
  -- after it, and rolling back to that one brings its spec back unchanged.
  pub rolled_back_twice :
      (now later : Time) (k : ℤ) (dep : Deployment F) (n : ℕ) (e target : DeploymentRevision F)
      → IsRecorded dep n e
      → (find_revision (pos n) (rolled_back now k dep target).revision_history ≡ some e)
        × ((rolled_back later (pos n) (rolled_back now k dep target) e).spec ≡ dep.spec)
  unfolding rolled_back
  rolled_back_twice now later k dep n e target r = (
    find-append (pos n) e (entry now dep n target) dep.revision_history r.found,
    rw r.same (
        ap (λ x. record dep.spec { rollout = x })
          (normalize_rollout_spec_fixed dep.spec.rollout r.normal)),
  )
