-- ===== src/Worker/Paths.antt =====
-- Go's `filepath.Base`, and the name that a secret's file gets (internal/worker/runner.go).
use Prim.Native.Char.{code}
use distributed_container_or.Base.{
  String, Bool, false, ◌==◌, ◌||◌, str_eq, if◌then◌else◌, trim_space, Option, none, some, refl, ◌≡◌,
}

unfoldable pub has_slash : String → Bool
has_slash String.[] = false
has_slash (String.◌∷◌ c s) = code c == 47 || has_slash s

-- Without the slashes at its end.
unfoldable pub trim_slashes : String → String
trim_slashes String.[] = String.[]
trim_slashes (String.◌∷◌ c s) = elim (trim_slashes s) [
  | String.[] ↦ if code c == 47 then String.[] else String.◌∷◌ c String.[]
  | String.◌∷◌ d t ↦ String.◌∷◌ c (String.◌∷◌ d t)
]

-- What follows the last slash.
unfoldable pub last_part : String → String
unfolding has_slash
last_part String.[] = String.[]
last_part (String.◌∷◌ c s) =
    if has_slash s then last_part s else if code c == 47 then s else String.◌∷◌ c s

unfoldable pub base : String → String
unfolding trim_slashes last_part
base path =
    if str_eq path ""
    then "."
    else (let trimmed = trim_slashes path in if str_eq trimmed "" then "/" else last_part trimmed)

-- `none` where the file is passed over.
unfoldable pub secret_name : String → Option String
unfolding base
secret_name path =
    let name = base (trim_space path) in
    if str_eq name "" || str_eq name "." then none else some name

base_test : (base "/run/key" ≡ "key") × (base "a//" ≡ "a") × (base "//" ≡ "/") × (base "" ≡ ".")
unfolding base
base_test = (refl, refl, refl, refl)
