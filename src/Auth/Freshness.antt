-- ===== src/Auth/Freshness.antt =====
-- The key that an OIDC token is verified with was fetched less than five minutes ago.
use distributed_container_or.Base.{
  ◌≡◌, ap, ◌∙◌, inl, inr, String, true, Option, none, some, arith, Option-cases, Result, ok, err,
  Result-cases, Bool-cases,
}
use distributed_container_or.Model.Floats.{Time, sub_time}
use distributed_container_or.Store.Table.{lookup}
use distributed_container_or.Auth.Keys.{
  RsaKey, KeyRing, Jwks, is_fresh, refresh_jwks, refreshed_key, resolve_jwk_key_by_kid,
}

abbrev value_of : {A : Type 0} → Result A → Option A
value_of (ok a) = some a
value_of (err _) = none

new_is_fresh : (now : Time) (ring : KeyRing) → ring.last_refresh ≡ now → is_fresh now ring ≡ true
unfolding sub_time
new_is_fresh now ring e = ground (arith, e)

module _ {W : Type 0} (jwks : Jwks W) (now : Time) (url : String) where
  refresh-now :
      (s : KeyRing × W)
      → (refresh_jwks jwks now url s).0 ≡ ok tt
      → (refresh_jwks jwks now url s).1.0.last_refresh ≡ now
  unfolding refresh_jwks
  refresh-now (ring, w) e = elim (Result-cases (jwks.get url w).0) [
    | inl ((status, payload), answered) ↦ elim (Result-cases payload) [
      | inl (listed, decoded) ↦ ground (arith, e, answered, decoded)
      | inr (x, garbled) ↦ ground (arith, e, answered, garbled)
    ]
    | inr (x, unreachable) ↦ ground (arith, e, unreachable)
  ]

  -- What a lookup of the key leaves, where it succeeds.
  abbrev pub Fresh : String → RsaKey → Result RsaKey × (KeyRing × W) → Type 0
  Fresh kid key r =
      r.0 ≡ ok key → (lookup kid r.1.0.resolved ≡ some key) × (is_fresh now r.1.0 ≡ true)

  refreshed-Fresh :
      (kid : String) (s : KeyRing × W) (key : RsaKey)
      → Fresh kid key (refreshed_key jwks now url kid s)
  unfolding refreshed_key
  refreshed-Fresh kid s key = elim (Result-cases (refresh_jwks jwks now url s).0) [
    | inl (_, fetched) ↦
        let s' = (refresh_jwks jwks now url s).1 in
        elim (Option-cases (lookup kid s'.0.resolved)) [
          | inl unknown ↦ rw (fetched, unknown, refreshed_key) (λ e. cc e)
          | inr (k, found) ↦
              rw (fetched, found, refreshed_key)
                (λ e. (
                  found ∙ ap (λ (r : Result RsaKey). value_of r) e,
                  new_is_fresh now s'.0 (refresh-now s fetched),
                ))
        ]
    | inr (x, failed) ↦ rw (failed, refreshed_key) (λ e. cc e)
  ]

  -- A key that is found stands in the ring afterwards, and the ring was fetched less than five minutes
  -- before.
  pub resolve-Fresh :
      (kid : String) (s : KeyRing × W) (key : RsaKey)
      → Fresh kid key (resolve_jwk_key_by_kid jwks now url kid s)
  unfolding resolve_jwk_key_by_kid
  resolve-Fresh kid (ring, w) key = elim (Option-cases (lookup kid ring.resolved)) [
    | inl unknown ↦ rw (unknown, resolve_jwk_key_by_kid) (refreshed-Fresh kid (ring, w) key)
    | inr (known, found) ↦ elim (Bool-cases (is_fresh now ring)) [
      | inl fresh ↦
          rw (found, fresh, resolve_jwk_key_by_kid)
            (λ e. (found ∙ ap (λ (r : Result RsaKey). value_of r) e, fresh))
      | inr stale ↦ rw (found, stale, resolve_jwk_key_by_kid) (refreshed-Fresh kid (ring, w) key)
    ]
  ]
