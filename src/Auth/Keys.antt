-- ===== src/Auth/Keys.antt =====
-- internal/auth/auth.go: the keys of an OIDC provider, as they are fetched and kept.
use distributed_container_or.Base.{
  ℕ, ◌+◌, ◌*◌, String, Bool, not, ◌&&◌, ◌||◌, List, [], ◌∷◌, ℤ, pos, add64, mul64, leb_ℤ, ltb_ℤ,
  if◌then◌else◌, is_blank, trim_space, equal_fold, ltb, leb, Option, none, some, Result, ok, err,
  message,
}
use distributed_container_or.Model.Floats.{Time, second, sub_time}
use distributed_container_or.Network.{is_nil}
use distributed_container_or.Store.Table.{lookup, insert}

pub record RsaKey : Type 0 where
  pub n : ℕ
  pub e : ℤ

pub record Jwk : Type 0 where
  pub kty : String
  pub kid : String
  pub n : String
  pub e : String

-- The keys that are known, and when they were fetched.
pub record KeyRing : Type 0 where
  pub resolved : List (String × RsaKey)
  pub last_refresh : Time

-- The answer to a request for the keys: an error of the transport, or a status and the keys of a
-- payload that could be decoded.
pub record Jwks (W : Type 0) : Type 0 where
  pub get : String → W → Result (ℕ × Result (List Jwk)) × W
  pub decode_base64 : String → Option (List ℕ)

abbrev pub refresh_after : ℤ
refresh_after = pos (300 * second)

-- `new(big.Int).SetBytes(…)`.
unfoldable pub number_of : ℕ → List ℕ → ℕ
number_of n [] = n
number_of n (b ∷ bs) = number_of (n * 256 + b) bs

-- `e = e<<8 + int(b)`.
unfoldable pub exponent_of : ℤ → List ℕ → ℤ
exponent_of e [] = e
exponent_of e (b ∷ bs) = exponent_of (add64 (mul64 e (pos 256)) (pos b)) bs

abbrev pub is_rsa : Jwk → Bool
is_rsa k = equal_fold (trim_space k.kty) "RSA" && not (is_blank k.kid)

abbrev pub is_fresh : Time → KeyRing → Bool
is_fresh now ring = ltb_ℤ (sub_time now ring.last_refresh) refresh_after

module _ {W : Type 0} (jwks : Jwks W) where
  unfoldable pub jwk_rsa_to_public_key : String → String → Option RsaKey
  unfolding trim_space number_of exponent_of
  jwk_rsa_to_public_key n_raw e_raw = elim (jwks.decode_base64 (trim_space n_raw)) [
    | none ↦ none
    | some n_bytes ↦ elim (jwks.decode_base64 (trim_space e_raw)) [
      | none ↦ none
      | some e_bytes ↦
          let e = exponent_of (pos 0) e_bytes in
          if leb_ℤ e (pos 0) then none else some (record { n = number_of 0 n_bytes; e = e })
    ]
  ]

  -- The usable keys by their id, a later one over an earlier.
  unfoldable pub usable_keys : List Jwk → List (String × RsaKey) → List (String × RsaKey)
  unfolding jwk_rsa_to_public_key insert
  usable_keys [] keys = keys
  usable_keys (k ∷ ks) keys =
      let key : Option RsaKey = if is_rsa k then jwk_rsa_to_public_key k.n k.e else none in
      usable_keys ks (elim key [ none ↦ keys | some x ↦ insert k.kid x keys ])

  unfoldable pub refresh_jwks : Time → String → KeyRing × W → Result {0} Unit × (KeyRing × W)
  unfolding usable_keys
  refresh_jwks now url (ring, w) =
      let (response, w') = jwks.get url w in
      elim response [
        | err e ↦ (err e, (ring, w'))
        | ok (status, payload) ↦
            if ltb status 200 || leb 300 status
            then (err (message "jwks endpoint returned status %d"), (ring, w'))
            else elim payload [
              | err e ↦ (err e, (ring, w'))
              | ok listed ↦
                  let keys = usable_keys listed [] in
                  let ring' : KeyRing = record { resolved = keys; last_refresh = now } in
                  if is_nil keys
                  then (err (message "no usable rsa keys found in jwks"), (ring', w'))
                  else (ok tt, (ring', w'))
            ]
      ]

  unfoldable pub refreshed_key :
      Time → String → String → KeyRing × W → Result RsaKey × (KeyRing × W)
  unfolding refresh_jwks lookup
  refreshed_key now url kid s =
      let (done, s') = refresh_jwks now url s in
      elim done [
        | err e ↦ (err e, s')
        | ok _ ↦ elim (lookup kid s'.0.resolved) [
          | none ↦ (err (message "kid not found in jwks: %s"), s')
          | some key ↦ (ok key, s')
        ]
      ]

  -- The lookup is made twice, around the taking of the lock; one step has it once.
  unfoldable pub resolve_jwk_key_by_kid :
      Time → String → String → KeyRing × W → Result RsaKey × (KeyRing × W)
  unfolding refreshed_key lookup sub_time
  resolve_jwk_key_by_kid now url kid (ring, w) = elim (lookup kid ring.resolved) [
    | none ↦ refreshed_key now url kid (ring, w)
    | some key ↦
        if is_fresh now ring then (ok key, (ring, w)) else refreshed_key now url kid (ring, w)
  ]
