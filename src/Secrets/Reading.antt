-- ===== src/Secrets/Reading.antt =====
-- Resolving the secrets of a deployment reads only, and reads the secrets and the key only.
use distributed_container_or.Base.{
  ◌≡◌, refl, inl, inr, ap, String, List, [], ◌∷◌, arith, Option-cases,
}
use distributed_container_or.Model.Deploy.{Deployment, SecretMountSpec}
use distributed_container_or.Store.Table.{lookup}
use distributed_container_or.Store.State.{Orchestrator}
use distributed_container_or.Store.{get_secret, join_key}
use distributed_container_or.Secrets.{secret_files_of, resolve_secret_files_for_deployment}

module _ {F : Type 0} (dep : Deployment F) where
  get_secret-state : (ns name : String) (o : Orchestrator F) → (get_secret ns name o).1 ≡ o
  unfolding get_secret
  get_secret-state ns name o = elim (Option-cases (lookup (join_key ns name) o.secrets)) [
    | inl e ↦ ground (arith, e)
    | inr (s, e) ↦ ground (arith, e)
  ]

  -- Resolving secrets reads only.
  secret_files_of-state :
      (sms : List SecretMountSpec) (o : Orchestrator F) → (secret_files_of dep sms o).1 ≡ o
  unfolding secret_files_of
  secret_files_of-state [] o = refl
  secret_files_of-state (sm ∷ sms) o =
      ground
        (arith, get_secret-state dep.spec.namespace sm.secret_name o, secret_files_of-state sms o)

  pub resolve-state : (o : Orchestrator F) → (resolve_secret_files_for_deployment dep o).1 ≡ o
  unfolding resolve_secret_files_for_deployment
  resolve-state o = ground (arith, secret_files_of-state dep.spec.secret_mounts o)

  -- The files depend on the secrets and the key only.
  secret_files_of_same :
      (sms : List SecretMountSpec) (o q : Orchestrator F)
      → o.secrets ≡ q.secrets
      → o.decrypt ≡ q.decrypt
      → (secret_files_of dep sms o).0 ≡ (secret_files_of dep sms q).0
  unfolding secret_files_of get_secret
  secret_files_of_same [] o q es ed = refl
  secret_files_of_same (sm ∷ sms) o q es ed =
      elim (Option-cases (lookup (join_key dep.spec.namespace sm.secret_name) o.secrets)) [
        | inl e ↦ ground (
          arith,
          e,
          ap (lookup (join_key dep.spec.namespace sm.secret_name)) es,
          secret_files_of_same sms o q es ed,
        )
        | inr (s, e) ↦ ground (
          arith,
          e,
          ap (lookup (join_key dep.spec.namespace sm.secret_name)) es,
          secret_files_of_same sms o q es ed,
        )
      ]

  pub resolve_same :
      (o q : Orchestrator F)
      → o.secrets ≡ q.secrets
      → o.decrypt ≡ q.decrypt
      → (resolve_secret_files_for_deployment dep o).0
        ≡ (resolve_secret_files_for_deployment dep q).0
  unfolding resolve_secret_files_for_deployment
  resolve_same o q es ed = ground (arith, secret_files_of_same dep.spec.secret_mounts o q es ed)
