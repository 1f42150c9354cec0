-- ===== src/Auth/Claims.antt =====
-- internal/auth/auth.go: what is read from a token's claims.
use distributed_container_or.Base.{
  String, Bool, true, false, List, [], ◌∷◌, str_eq, if◌then◌else◌, is_blank, trim_space, Option,
  none, some,
}

-- The value of a claim: a text, a list whose elements are texts (`some`) or not, a list of texts, or
-- something else, as where it is missing.
pub data Claim : Type 0 where
  text : String → Claim
  items : List (Option String) → Claim
  texts : List String → Claim
  other : Claim

abbrev pub ClaimSet : Type 0
ClaimSet = String → Claim

-- `v, _ := claims[name].(string)`.
abbrev pub text_of : Claim → String
text_of (Claim.text s) = s
text_of _ = ""

unfoldable pub roles_of_texts : List String → List String
unfolding trim_space is_blank
roles_of_texts [] = []
roles_of_texts (s ∷ ss) = if is_blank s then roles_of_texts ss else trim_space s ∷ roles_of_texts ss

-- The elements that are texts.
unfoldable pub texts_in : List (Option String) → List String
texts_in [] = []
texts_in (none ∷ is) = texts_in is
texts_in (some s ∷ is) = s ∷ texts_in is

unfoldable pub roles_of : Claim → List String
unfolding roles_of_texts texts_in
roles_of (Claim.items is) = roles_of_texts (texts_in is)
roles_of (Claim.texts ss) = roles_of_texts ss
roles_of (Claim.text s) = roles_of_texts (s ∷ [])
roles_of Claim.other = []

unfoldable pub extract_roles : ClaimSet → List String
unfolding roles_of
extract_roles claims = roles_of (claims "roles")

unfoldable pub any_trimmed : String → List String → Bool
unfolding trim_space
any_trimmed expected [] = false
any_trimmed expected (s ∷ ss) =
    if str_eq (trim_space s) expected then true else any_trimmed expected ss

unfoldable pub audience_in : Claim → String → Bool
unfolding any_trimmed texts_in
audience_in (Claim.text s) expected = any_trimmed expected (s ∷ [])
audience_in (Claim.items is) expected = any_trimmed expected (texts_in is)
audience_in (Claim.texts _) expected = false
audience_in Claim.other expected = false

unfoldable pub claim_has_audience : Claim → String → Bool
unfolding audience_in trim_space
claim_has_audience claim given =
    let expected = trim_space given in
    if str_eq expected "" then true else audience_in claim expected
