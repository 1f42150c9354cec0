-- ===== src/Auth.antt =====
-- internal/auth/auth.go: who a bearer token speaks for. The tokens' library, the HTTP client and the
-- decoding of base 64 are parameters.
pub mod Keys
pub mod Claims
pub mod Freshness
pub mod Roles
pub mod Grounds
pub mod Soundness
use distributed_container_or.Base.{
  String, Bool, true, false, not, ◌&&◌, ◌||◌, List, [], ◌∷◌, str_eq, if◌then◌else◌, is_blank,
  trim_space, lower, cut_prefix, Option, none, some, Result, ok, err, Error, message,
}
use distributed_container_or.Model.Floats.{Time}
use distributed_container_or.Auth.Keys.{RsaKey, KeyRing, Jwks, resolve_jwk_key_by_kid}
use distributed_container_or.Auth.Claims.{
  Claim, ClaimSet, text_of, extract_roles, claim_has_audience,
}

pub data Mode : Type 0 where
  static jwt hybrid oidc : Mode
  other : String → Mode

pub record Principal : Type 0 where
  pub subject : String
  pub roles : List String
  pub source : String

pub record Verifier : Type 0 where
  pub mode : Mode
  pub static_tok : String
  pub jwt_secret : String
  pub issuer : String
  pub audience : String
  pub jwks_url : String

pub record TokenHeader : Type 0 where
  pub alg : String
  -- `none` where there is no text.
  pub kid : Option String

-- What a token is verified with.
pub data Key : Type 0 where
  secret : String → Key
  rsa : RsaKey → Key

-- golang-jwt: the header that the function for the key is given, and the claims of a token that is
-- valid under the key.
pub record TokenLibrary : Type 0 where
  pub header : String → Option TokenHeader
  pub verified : String → Key → Option ClaimSet

unfoldable pub mode_of : String → Mode
unfolding trim_space
mode_of mode =
    let m = lower (trim_space mode) in
    if str_eq m "" || str_eq m "static"
    then Mode.static
    else if str_eq m "jwt"
    then Mode.jwt
    else if str_eq m "hybrid"
    then Mode.hybrid
    else if str_eq m "oidc"
    then Mode.oidc
    else Mode.other m

unfoldable pub new_verifier : String → String → String → String → String → String → Verifier
unfolding mode_of trim_space
new_verifier mode static_tok jwt_secret issuer audience jwks_url = record {
  mode = mode_of mode;
  static_tok = trim_space static_tok;
  jwt_secret = trim_space jwt_secret;
  issuer = trim_space issuer;
  audience = trim_space audience;
  jwks_url = trim_space jwks_url;
}

unfoldable pub verify_static : Verifier → String → Result Principal
verify_static v token =
    if str_eq v.static_tok "" || not (str_eq token v.static_tok)
    then err (message "invalid static token")
    else ok (record { subject = "static-token"; roles = "admin" ∷ []; source = "static" })

-- `if len(roles) == 0`.
abbrev pub or_viewer : List String → List String
or_viewer [] = "viewer" ∷ []
or_viewer (r ∷ rs) = r ∷ rs

abbrev pub principal : ClaimSet → String → Principal
principal claims source = record {
  subject = text_of (claims "sub");
  roles = or_viewer (extract_roles claims);
  source = source;
}

-- The issuer that is configured, if any.
abbrev pub is_issued : Verifier → ClaimSet → Bool
is_issued v claims = str_eq v.issuer "" || str_eq (text_of (claims "iss")) v.issuer

module _ (library : TokenLibrary) where
  unfoldable pub verify_jwt : Verifier → String → Result Principal
  unfolding extract_roles
  verify_jwt v token =
      if str_eq v.jwt_secret ""
      then err (message "jwt secret not configured")
      else elim (library.header token) [
        | none ↦ err (message "invalid jwt token")
        | some h ↦
            if not (str_eq h.alg "HS256")
            then err (message "invalid jwt token")
            else elim (library.verified token (Key.secret v.jwt_secret)) [
              | none ↦ err (message "invalid jwt token")
              | some claims ↦
                  if not (is_issued v claims)
                  then err (message "invalid issuer")
                  else if not (str_eq v.audience "" || str_eq (text_of (claims "aud")) v.audience)
                  then err (message "invalid audience")
                  else ok (principal claims "jwt")
            ]
      ]

  module _ {W : Type 0} (jwks : Jwks W) (now : Time) where
    -- The function for the key of an OIDC token.
    unfoldable pub oidc_key : Verifier → String → KeyRing × W → Result RsaKey × (KeyRing × W)
    unfolding resolve_jwk_key_by_kid
    oidc_key v token s = elim (library.header token) [
      | none ↦ (err (message "invalid oidc jwt token"), s)
      | some h ↦
          if not (str_eq h.alg "RS256")
          then (err (message "unexpected signing method: %s"), s)
          else elim h.kid [
            | none ↦ (err (message "missing kid in jwt header"), s)
            | some kid ↦
                if is_blank kid
                then (err (message "missing kid in jwt header"), s)
                else resolve_jwk_key_by_kid jwks now v.jwks_url kid s
          ]
    ]

    unfoldable pub verify_oidc : Verifier → String → KeyRing × W → Result Principal × (KeyRing × W)
    unfolding oidc_key extract_roles claim_has_audience
    verify_oidc v token s =
        if str_eq v.jwks_url ""
        then (err (message "jwks url not configured"), s)
        else (let (found, s') = oidc_key v token s in
            elim found [
              | err _ ↦ (err (message "invalid oidc jwt token"), s')
              | ok key ↦ elim (library.verified token (Key.rsa key)) [
                | none ↦ (err (message "invalid oidc jwt token"), s')
                | some claims ↦
                    if not (is_issued v claims)
                    then (err (message "invalid issuer"), s')
                    else if not
                        (str_eq v.audience "" || claim_has_audience (claims "aud") v.audience)
                    then (err (message "invalid audience"), s')
                    else (ok (principal claims "oidc"), s')
              ]
            ])

    unfoldable pub verify_as :
        Mode → Verifier → String → KeyRing × W → Result Principal × (KeyRing × W)
    unfolding verify_static verify_jwt verify_oidc
    verify_as Mode.static v token s = (verify_static v token, s)
    verify_as Mode.jwt v token s = (verify_jwt v token, s)
    verify_as Mode.oidc v token s = verify_oidc v token s
    verify_as Mode.hybrid v token s = elim (verify_static v token) [
      | ok p ↦ (ok p, s)
      | err _ ↦ elim (verify_jwt v token) [ ok p ↦ (ok p, s) | err _ ↦ verify_oidc v token s ]
    ]
    verify_as (Mode.other _) v token s = (err (message "unsupported auth mode: %s"), s)

    unfoldable pub verify_bearer :
        Verifier → String → KeyRing × W → Result Principal × (KeyRing × W)
    unfolding verify_as trim_space
    verify_bearer v authz s = elim (cut_prefix (trim_space authz) "Bearer ") [
      | none ↦ (err (message "missing bearer token"), s)
      | some rest ↦
          let token = trim_space rest in
          if str_eq token ""
          then (err (message "empty bearer token"), s)
          else verify_as v.mode v token s
    ]
