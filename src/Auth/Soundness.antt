-- ===== src/Auth/Soundness.antt =====
-- Whoever is let in has shown something for it.
use distributed_container_or.Base.{◌≡◌, ◌⊎◌, String, some, Result, ok, err, cut_prefix, trim_space}
use distributed_container_or.Model.Floats.{Time}
use distributed_container_or.Auth.Keys.{KeyRing, Jwks}
use distributed_container_or.Auth.{Verifier, Principal, Mode, TokenLibrary}
use distributed_container_or.Auth.Grounds.{ByStatic, ByJwt, ByOidc}

module _ (library : TokenLibrary) (v : Verifier) (token : String) where
  module _ {W : Type 0} (jwks : Jwks W) (now : Time) where
    -- What lets a principal in under a mode.
    abbrev pub AllowedBy : Mode → Principal → KeyRing → Type 0
    AllowedBy Mode.static p ring = ByStatic library v token p
    AllowedBy Mode.jwt p ring = ByJwt library v token p
    AllowedBy Mode.oidc p ring = ByOidc library v token jwks now p ring
    AllowedBy Mode.hybrid p ring =
        ByStatic library v token p
        ⊎ (ByJwt library v token p ⊎ ByOidc library v token jwks now p ring)
    AllowedBy (Mode.other _) p ring = ⊥

    abbrev pub Allowed : Mode → Result Principal × (KeyRing × W) → Type 0
    Allowed m (ok p, (ring, w)) = AllowedBy m p ring
    Allowed m (err x, s) = Unit

module _ {W : Type 0} (library : TokenLibrary) (jwks : Jwks W) (now : Time) (v : Verifier) where
  -- A header that lets someone in has a bearer token, and what is asked under the mode holds of it.
  abbrev pub Admitted : String → Result Principal × (KeyRing × W) → Type 0
  Admitted authz (ok p, (ring, w)) =
      (rest : String) × (cut_prefix (trim_space authz) "Bearer " ≡ some rest)
      × AllowedBy library v (trim_space rest) jwks now v.mode p ring
  Admitted authz (err x, s) = Unit
