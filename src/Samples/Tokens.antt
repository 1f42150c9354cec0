-- ===== src/Samples/Tokens.antt =====
-- The theorem on bearer tokens at a concrete one.
use distributed_container_or.Base.{
  ◌*ℤ◌, mul64, ◌+ℤ◌, wrap64, add64, equal_fold, cut_prefix, ◌≡◌, refl, [], ◌∷◌, str_eq, some, none,
  ok, if◌then◌else◌,
}
use distributed_container_or.Auth.Claims.{Claim, ClaimSet}
use distributed_container_or.Auth.Keys.{KeyRing, Jwks}
use distributed_container_or.Auth.{Verifier, Mode, TokenLibrary, verify_bearer}

abbrev claims : ClaimSet
claims name =
    if str_eq name "sub"
    then Claim.text "ada"
    else if str_eq name "roles"
    then Claim.items (some "admin" ∷ none ∷ some " " ∷ [])
    else if str_eq name "aud"
    then Claim.text "cluster"
    else Claim.other

-- One token is known, signed by RS256 under the key "k1".
abbrev pub one_token : TokenLibrary
one_token = record {
  header = λ t. if str_eq t "t1" then some (record { alg = "RS256"; kid = some "k1" }) else none;
  verified = λ t k. if str_eq t "t1" then some claims else none;
}

-- The provider lists one key.
abbrev pub provider : Jwks Unit
provider = record {
  get = λ url w.
      (ok (200, ok (record { kty = " rsa "; kid = "k1"; n = "AQAB"; e = "AQAB" } ∷ [])), w);
  decode_base64 = λ t. some (1 ∷ 0 ∷ 1 ∷ []);
}

abbrev pub verifier : Verifier
verifier = record {
  mode = Mode.hybrid;
  static_tok = "s3cret";
  jwt_secret = "";
  issuer = "";
  audience = "cluster";
  jwks_url = "https://id.example/jwks";
}

abbrev pub no_keys : KeyRing
no_keys = record { resolved = []; last_refresh = 0 }

-- The header lets its subject in.
ada_test :
    (verify_bearer one_token provider 9 verifier " Bearer t1" (no_keys, tt)).0
    ≡ ok (record { subject = "ada"; roles = "admin" ∷ []; source = "oidc" })
unfolding verify_bearer cut_prefix equal_fold add64 wrap64 ◌+ℤ◌ mul64 ◌*ℤ◌
ada_test = refl
