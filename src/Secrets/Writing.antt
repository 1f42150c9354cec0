-- ===== src/Secrets/Writing.antt =====
-- internal/service: `UpsertSecret` (orchestrator.go) and `encryptSecretData` (features.go). AES-GCM
-- with the key is a parameter, as it is for reading; the number stands for its random nonce.
use Prim.Native.String.{◌++◌ as append}
use distributed_container_or.Base.{
  ℕ, ◌+◌, ◌≡◌, refl, ap, ◌∙◌, String, false, [], ◌∷◌, map, Option, none, some, Result, ok, err,
  message, is_blank, if◌then◌else◌, cut_prefix-append,
}
use distributed_container_or.Model.Floats.{Time}
use distributed_container_or.Model.Cluster.{Labels}
use distributed_container_or.Model.Storage.{Secret}
use distributed_container_or.Store.Table.{lookup, insert, lookup-insert_self}
use distributed_container_or.Store.State.{Orchestrator, M, and_then, ◌>>=◌, ◌>>◌, pure, fail, read}
use distributed_container_or.Store.{stamped, join_key, upsert_secret, get_secret}
use distributed_container_or.Quota.{or_default, ensure_namespace_exists}
use distributed_container_or.Secrets.{decrypt_value, decrypt_secret_data}

abbrev pub Encrypt : Type 0
Encrypt = ℕ → String → Result String

unfoldable pub encrypt_values : Encrypt → ℕ → Labels → Result Labels
encrypt_values encrypt n [] = ok []
encrypt_values encrypt n ((k, v) ∷ m) =
    let rest = encrypt_values encrypt (n + 1) m in
    elim (encrypt n v) [
      | err e ↦ err e
      | ok enc ↦ elim rest [ err e ↦ err e | ok out ↦ ok ((k, append "enc:v1:" enc) ∷ out) ]
    ]

unfoldable pub encrypt_secret_data : Option Encrypt → Labels → Result Labels
unfolding encrypt_values
encrypt_secret_data none m = ok m
encrypt_secret_data (some encrypt) m = encrypt_values encrypt 0 m

module _ {F : Type 0} where
  abbrev of_result : {A : Type 0} → Result A → M F A
  of_result r o = (r, o)

  unfoldable pub upsert_secret_service : Option Encrypt → Time → Secret → M F Secret
  unfolding encrypt_secret_data upsert_secret get_secret decrypt_secret_data
  upsert_secret_service encrypt now given =
      let namespace = or_default given.namespace in
      if is_blank given.name then fail (message "secret name is required") else (do
        ensure_namespace_exists now namespace
        enc ← of_result (encrypt_secret_data encrypt given.contents)
        upsert_secret now (record given { namespace = namespace; contents = enc })
        out ← get_secret namespace given.name
        cipher ← read (λ o. o.decrypt)
        pure (record out { contents = decrypt_secret_data cipher out.contents }))

-- What is encrypted is decrypted again.
abbrev pub Inverts : Encrypt → (String → Option String) → Type 0
Inverts encrypt cipher = (n : ℕ) (v enc : String) → encrypt n v ≡ ok enc → cipher enc ≡ some v

module _ (encrypt : Encrypt) (cipher : String → Option String)
    (inverts : Inverts encrypt cipher) where
  decrypt_value-append :
      (n : ℕ) (v enc : String)
      → encrypt n v ≡ ok enc
      → decrypt_value cipher (append "enc:v1:" enc) ≡ v
  unfolding decrypt_value
  decrypt_value-append n v enc e =
      rw (cut_prefix-append "enc:v1:" enc, inverts n v enc e, decrypt_value) refl

  -- Where each value can be encrypted, so can all, and reading them gives them back.
  encrypt_values_back :
      ((n : ℕ) (v : String) → (enc : String) × (encrypt n v ≡ ok enc))
      → (n : ℕ) (m : Labels)
      → (out : Labels) × (encrypt_values encrypt n m ≡ ok out)
        × (map (λ (k, v). (k, decrypt_value cipher v)) out ≡ m)
  unfolding encrypt_values
  encrypt_values_back works n [] = ([], refl, refl)
  encrypt_values_back works n ((k, v) ∷ m) =
      let (enc, e) = works n v in
      let (out, f, back) = encrypt_values_back works (n + 1) m in
      (
        (k, append "enc:v1:" enc) ∷ out,
        rw (e, f, encrypt_values) refl,
        ap (λ x. (k, x) ∷ map (λ (k, v). (k, decrypt_value cipher v)) out)
              (decrypt_value-append n v enc e)
            ∙ ap (λ l. (k, v) ∷ l) back,
      )

  -- The record that is stored, given its encrypted values.
  abbrev written : Time → Secret → Labels → Secret
  written now given enc = record given {
    namespace = or_default given.namespace;
    contents = enc;
    created_at = stamped given.created_at now;
    updated_at = now;
  }

  upsert_secret_runs :
      {F : Type 0} (now : Time) (given : Secret) (enc : Labels) (o : Orchestrator F)
      → encrypt_secret_data (some encrypt) given.contents ≡ ok enc
      → is_blank given.name ≡ false
      → ensure_namespace_exists now (or_default given.namespace) o ≡ (ok tt, o)
      → upsert_secret_service (some encrypt) now given o ≡ (
        ok (record (written now given enc) { contents = decrypt_secret_data o.decrypt enc }),
        record o {
          secrets =
              insert
                (join_key (or_default given.namespace) given.name)
                (written now given enc)
                o.secrets;
        },
      )
  unfolding upsert_secret_service
  upsert_secret_runs now given enc o e named there =
      rw (named, there, and_then, e, lookup-insert_self) refl

  -- Where the key decrypts what it encrypts, a secret with a name, of a namespace that is there, is
  -- stored with each value encrypted, and the call returns it with the values that it was given.
  pub upsert_secret_lem :
      {F : Type 0} (now : Time) (given : Secret) (o : Orchestrator F)
      → ((n : ℕ) (v : String) → (enc : String) × (encrypt n v ≡ ok enc))
      → o.decrypt ≡ some cipher
      → is_blank given.name ≡ false
      → ensure_namespace_exists now (or_default given.namespace) o ≡ (ok tt, o)
      → (enc : Labels) × (stored out : Secret) × (encrypt_values encrypt 0 given.contents ≡ ok enc)
        × ((upsert_secret_service (some encrypt) now given o).0 ≡ ok out)
        × (out.contents ≡ given.contents)
        × (lookup
              (join_key (or_default given.namespace) given.name)
              (upsert_secret_service (some encrypt) now given o).1.secrets
            ≡ some stored)
        × (stored.contents ≡ enc)
  unfolding encrypt_secret_data decrypt_secret_data
  upsert_secret_lem now given o works key named there =
      let (enc, e, back) = encrypt_values_back works 0 given.contents in
      let runs = upsert_secret_runs now given enc o e named there in
      (
        enc,
        written now given enc,
        record (written now given enc) { contents = decrypt_secret_data o.decrypt enc },
        e,
        ap (λ r. r.0) runs,
        rw (key) back,
        rw (runs, lookup-insert_self) refl,
        refl,
      )
