-- ===== src/Samples/Secrecy.antt =====
-- The theorem on writing a secret at a concrete one.
use Prim.Native.String.{◌++◌ as append}
use distributed_container_or.Base.{
  ℤ, is_blank, trim_space, ℕ, ◌≡◌, refl, false, String, [], ◌∷◌, Option, some, Result, ok,
  cut_prefix, cut_prefix-append,
}
use distributed_container_or.Model.Cluster.{Labels}
use distributed_container_or.Model.Storage.{Secret}
use distributed_container_or.Store.Table.{lookup}
use distributed_container_or.Store.State.{Orchestrator}
use distributed_container_or.Store.{get_namespace, join_key}
use distributed_container_or.Quota.{or_default, ensure_namespace_exists}
use distributed_container_or.Secrets.Writing.{
  encrypt_values, upsert_secret_service, upsert_secret_lem, Inverts,
}
use distributed_container_or.Samples.{empty}

abbrev seal : ℕ → String → Result String
seal n v = ok (append "sealed:" v)

abbrev unseal : String → Option String
unseal enc = cut_prefix enc "sealed:"

abbrev keyed : Orchestrator ℤ
keyed = record empty {
  namespaces =
      ("default", record { name = "default"; tenant = "default"; created_at = 1; updated_at = 1 })
      ∷ [];
  decrypt = some unseal;
}

abbrev database : Secret
database = record {
  namespace = "";
  name = "db";
  contents = ("password", "hunter2") ∷ [];
  created_at = 0;
  updated_at = 0;
}

there : ensure_namespace_exists 5 (or_default database.namespace) keyed ≡ (ok tt, keyed)
unfolding is_blank ensure_namespace_exists get_namespace trim_space lookup
there = refl

named : is_blank database.name ≡ false
unfolding is_blank
named = refl

works : (n : ℕ) (v : String) → (enc : String) × (seal n v ≡ ok enc)
works n v = (append "sealed:" v, refl)

unsealed : Inverts seal unseal
unsealed n v enc e = let sealed = cut_prefix-append "sealed:" v in cc (e, sealed)

upsert_secret_lem_example :
    (enc : Labels) × (stored out : Secret) × (encrypt_values seal 0 database.contents ≡ ok enc)
    × ((upsert_secret_service (some seal) 5 database keyed).0 ≡ ok out)
    × (out.contents ≡ database.contents)
    × (lookup
          (join_key (or_default database.namespace) "db")
          (upsert_secret_service (some seal) 5 database keyed).1.secrets
        ≡ some stored)
    × (stored.contents ≡ enc)
upsert_secret_lem_example =
    upsert_secret_lem seal unseal unsealed 5 database keyed works refl named there
