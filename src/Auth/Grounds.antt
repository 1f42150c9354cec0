-- ===== src/Auth/Grounds.antt =====
-- What each kind of token has shown where it is accepted.
use distributed_container_or.Base.{
  ◌≡◌, ◌≢◌, refl, sym, subst, ◌⊎◌, inl, inr, String, true, false, ◌||◌, [], ◌∷◌, some, arith,
  Option-cases, Result, ok, err, Result-cases, Bool-cases, eq_iff, str_eq, is_blank,
}
use distributed_container_or.Model.Floats.{Time}
use distributed_container_or.Store.Table.{lookup}
use distributed_container_or.Auth.Keys.{RsaKey, KeyRing, Jwks, is_fresh, resolve_jwk_key_by_kid}
use distributed_container_or.Auth.Freshness.{resolve-Fresh}
use distributed_container_or.Auth.Claims.{ClaimSet, text_of, claim_has_audience}
use distributed_container_or.Auth.Roles.{IsNamed, principal-IsNamed}
use distributed_container_or.Auth.{
  Verifier, Principal, Key, TokenHeader, TokenLibrary, principal, is_issued, verify_static,
  verify_jwt, oidc_key, verify_oidc,
}

module _ (library : TokenLibrary) (v : Verifier) (token : String) where
  -- The token is the static one, which is set.
  abbrev pub ByStatic : Principal → Type 0
  ByStatic p =
      (v.static_tok ≢ "")
      × (token ≡ v.static_tok)
      × (p ≡ record { subject = "static-token"; roles = "admin" ∷ []; source = "static" })

  -- The claims name the issuer that is configured, if any.
  abbrev pub IsIssued : ClaimSet → Type 0
  IsIssued claims = (v.issuer ≡ "") ⊎ (text_of (claims "iss") ≡ v.issuer)

  -- The token is signed by HS256 under the secret, which is set, for the audience configured, if any.
  abbrev pub ByJwt : Principal → Type 0
  ByJwt p =
      (h : TokenHeader) × (claims : ClaimSet) × (v.jwt_secret ≢ "")
      × (library.header token ≡ some h)
      × (h.alg ≡ "HS256")
      × (library.verified token (Key.secret v.jwt_secret) ≡ some claims)
      × IsIssued claims
      × ((v.audience ≡ "") ⊎ (text_of (claims "aud") ≡ v.audience))
      × IsNamed claims "jwt" p

  pub verify_static-ByStatic : (p : Principal) → verify_static v token ≡ ok p → ByStatic p
  unfolding verify_static
  verify_static-ByStatic p e = ground (arith, e, eq_iff v.static_tok "", eq_iff token v.static_tok)

  issued : (claims : ClaimSet) → is_issued v claims ≡ true → IsIssued claims
  issued claims e = ground (arith, e, eq_iff v.issuer "", eq_iff (text_of (claims "iss")) v.issuer)

  pub verify_jwt-ByJwt : (p : Principal) → verify_jwt library v token ≡ ok p → ByJwt p
  unfolding verify_jwt
  verify_jwt-ByJwt p e = elim (Option-cases (library.header token)) [
    | inl absent ↦ ground (arith, e, absent)
    | inr (h, header) ↦ elim (Option-cases (library.verified token (Key.secret v.jwt_secret))) [
      | inl invalid ↦ ground (arith, e, header, invalid)
      | inr (claims, signed) ↦ (
        h,
        claims,
        ground (arith, e, eq_iff v.jwt_secret ""),
        header,
        ground (arith, e, header, eq_iff h.alg "HS256"),
        signed,
        issued claims (ground (arith, e, header, signed)),
        ground (
          arith,
          e,
          header,
          signed,
          eq_iff v.audience "",
          eq_iff (text_of (claims "aud")) v.audience,
        ),
        subst (IsNamed claims "jwt") (ground (arith, e, header, signed))
            (principal-IsNamed claims "jwt"),
      )
    ]
  ]

  module _ {W : Type 0} (jwks : Jwks W) (now : Time) where
    -- The token is signed by RS256 under the key that the ring has for its key id, and the ring was
    -- fetched less than five minutes ago; and it is for the audience configured, if any.
    abbrev pub ByOidc : Principal → KeyRing → Type 0
    ByOidc p ring =
        (h : TokenHeader) × (claims : ClaimSet) × (kid : String) × (key : RsaKey) × (v.jwks_url
          ≢ "")
        × (library.header token ≡ some h)
        × (h.alg ≡ "RS256")
        × (h.kid ≡ some kid)
        × (lookup kid ring.resolved ≡ some key)
        × (is_fresh now ring ≡ true)
        × (library.verified token (Key.rsa key) ≡ some claims)
        × IsIssued claims
        × ((v.audience ≡ "") ⊎ (claim_has_audience (claims "aud") v.audience ≡ true))
        × IsNamed claims "oidc" p

    -- The key of the token, as the ring has it.
    abbrev KeyOf : KeyRing → RsaKey → Type 0
    KeyOf ring key =
        (h : TokenHeader) × (kid : String) × (library.header token ≡ some h)
        × (h.alg ≡ "RS256")
        × (h.kid ≡ some kid)
        × (lookup kid ring.resolved ≡ some key)
        × (is_fresh now ring ≡ true)

    abbrev GivesKey : Result RsaKey × (KeyRing × W) → Type 0
    GivesKey r = (key : RsaKey) → r.0 ≡ ok key → KeyOf r.1.0 key

    oidc_key-GivesKey : (s : KeyRing × W) → GivesKey (oidc_key library jwks now v token s)
    unfolding oidc_key
    oidc_key-GivesKey s key = elim (Option-cases (library.header token)) [
      | inl absent ↦ rw (absent, oidc_key) (λ e. cc e)
      | inr (h, header) ↦ elim (Bool-cases (str_eq h.alg "RS256")) [
        | inl signed ↦ elim (Option-cases h.kid) [
          | inl anonymous ↦ rw (header, signed, anonymous, oidc_key) (λ e. cc e)
          | inr (kid, named) ↦ elim (Bool-cases (is_blank kid)) [
            | inl blank ↦ rw (header, signed, named, blank, oidc_key) (λ e. cc e)
            | inr given ↦
                let through : oidc_key library jwks now v token s
                    ≡ resolve_jwk_key_by_kid jwks now v.jwks_url kid s =
                  rw (header, signed, named, given, oidc_key) refl in
                subst (λ r. r.0 ≡ ok key → KeyOf r.1.0 key) (sym through)
                  (λ e.
                    let fresh = resolve-Fresh jwks now v.jwks_url kid s key e in
                    (h, kid, header, (eq_iff h.alg "RS256").0 signed, named, fresh.0, fresh.1))
          ]
        ]
        | inr unsigned ↦ rw (header, unsigned, oidc_key) (λ e. cc e)
      ]
    ]

    abbrev pub LetsIn : Result Principal × (KeyRing × W) → Type 0
    LetsIn (ok p, (ring, w)) = ByOidc p ring
    LetsIn (err x, s) = Unit

    audience_of :
        (claims : ClaimSet)
        → str_eq v.audience "" || claim_has_audience (claims "aud") v.audience ≡ true
        → (v.audience ≡ "") ⊎ (claim_has_audience (claims "aud") v.audience ≡ true)
    audience_of claims e = ground (arith, e, eq_iff v.audience "")

    -- The last test, and what holds where it passes.
    oidc_end :
        (s : KeyRing × W) (key : RsaKey) (claims : ClaimSet)
        → str_eq v.jwks_url "" ≡ false
        → (oidc_key library jwks now v token s).0 ≡ ok key
        → library.verified token (Key.rsa key) ≡ some claims
        → is_issued v claims ≡ true
        → ((str_eq v.audience "" || claim_has_audience (claims "aud") v.audience) ≡ true)
          ⊎ ((str_eq v.audience "" || claim_has_audience (claims "aud") v.audience) ≡ false)
        → LetsIn (verify_oidc library jwks now v token s)
    unfolding verify_oidc
    oidc_end s key claims on found signed own (inr elsewhere) =
        rw (on, found, signed, own, elsewhere, verify_oidc) tt
    oidc_end s key claims on found signed own (inl meant) =
        let after = (oidc_key library jwks now v token s).1 in
        let through : verify_oidc library jwks now v token s
            ≡ (ok (principal claims "oidc"), after) =
          rw (on, found, signed, own, meant, verify_oidc) refl in
        let (h, kid, header, alg, named, held, fresh) = oidc_key-GivesKey s key found in
        subst LetsIn (sym through) (
          h,
          claims,
          kid,
          key,
          λ z. ground (arith, on, eq_iff v.jwks_url "", z),
          header,
          alg,
          named,
          held,
          fresh,
          signed,
          issued claims own,
          audience_of claims meant,
          principal-IsNamed claims "oidc",
        )

    pub verify_oidc-LetsIn : (s : KeyRing × W) → LetsIn (verify_oidc library jwks now v token s)
    unfolding verify_oidc
    verify_oidc-LetsIn s =
        let asked = oidc_key library jwks now v token s in
        elim (Bool-cases (str_eq v.jwks_url "")) [
          | inl off ↦ rw (off, verify_oidc) tt
          | inr on ↦ elim (Result-cases asked.0) [
            | inr (x, failed) ↦ rw (on, failed, verify_oidc) tt
            | inl (key, found) ↦ elim (Option-cases (library.verified token (Key.rsa key))) [
              | inl invalid ↦ rw (on, found, invalid, verify_oidc) tt
              | inr (claims, signed) ↦ elim (Bool-cases (is_issued v claims)) [
                | inr foreign ↦ rw (on, found, signed, foreign, verify_oidc) tt
                | inl own ↦ oidc_end s key claims on found signed own (
                    Bool-cases
                      (str_eq v.audience "" || claim_has_audience (claims "aud") v.audience))
              ]
            ]
          ]
        ]
