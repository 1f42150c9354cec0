-- ===== src/Base/Text.antt =====
-- The parts of Go's `strings` package that the program uses. A text is its list of characters;
-- letter case is that of ASCII.
use Prim.Native.Nat.{ℕ, ◌+◌, ◌-◌, Ordering}
use Prim.Native.Char.{Char, code}
use Prim.Native.String.{String, ◌++◌ as append, compare}
use Prim.Native.String.append.{nil, cons}
use mathlib.Core.Path.{◌≡◌, refl, sym, ◌∙◌, ap, ap₂}
use mathlib.Core.Logic.{inl, inr}
use text.Mathlib.TextEquality.{Char-path}
use native.Mathlib.Omega.{arith}
use mathlib.Core.Bool.{Bool, true, false, ◌&&◌, ◌||◌}
use mathlib.Core.List.{List, [], ◌∷◌}
use mathlib.Core.Option.{Option, none, some}
use text.Mathlib.Text.{◌==◌ as str_eq}
use distributed_container_or.Base.Lists.{get_or}
use distributed_container_or.Base.Tests.{Bool-cases, leb, ◌==◌, if◌then◌else◌}

abbrev pub codes : String → List ℕ
codes String.[] = []
codes (String.◌∷◌ c s) = code c ∷ codes s

-- `unicode.IsSpace`.
unfoldable pub is_space : ℕ → Bool
is_space c =
    (leb 9 c && leb c 13)
    || c == 32
    || c == 0x85
    || c == 0xa0
    || c == 0x1680
    || (leb 0x2000 c && leb c 0x200a)
    || c == 0x2028
    || c == 0x2029
    || c == 0x202f
    || c == 0x205f
    || c == 0x3000

unfoldable pub trim_left : String → String
unfolding is_space
trim_left String.[] = String.[]
trim_left (String.◌∷◌ c s) = if is_space (code c) then trim_left s else String.◌∷◌ c s

drop_space : Char → String → String
unfolding is_space
drop_space c String.[] = if is_space (code c) then String.[] else String.◌∷◌ c String.[]
drop_space c (String.◌∷◌ d s) = String.◌∷◌ c (String.◌∷◌ d s)

unfoldable pub trim_right : String → String
unfolding drop_space
trim_right String.[] = String.[]
trim_right (String.◌∷◌ c s) = drop_space c (trim_right s)

-- `strings.TrimSpace`.
unfoldable pub trim_space : String → String
unfolding trim_left trim_right
trim_space s = trim_right (trim_left s)

-- `strings.TrimSpace(s) == ""`.
unfoldable pub is_blank : String → Bool
unfolding trim_space
is_blank s = str_eq (trim_space s) ""

unfoldable pub to_lower : List ℕ → List ℕ
to_lower [] = []
to_lower (c ∷ s) = (if leb b'A' c && leb c b'Z' then c + 32 else c) ∷ to_lower s

chars : String → List Char
chars String.[] = []
chars (String.◌∷◌ c s) = c ∷ chars s

lower_char : Char → Char
unfolding chars
lower_char c =
    if leb b'A' (code c) && leb (code c) b'Z'
    then get_or (chars "abcdefghijklmnopqrstuvwxyz") (code c - b'A') c
    else c

-- `strings.ToLower`.
unfoldable pub lower : String → String
unfolding lower_char
lower String.[] = String.[]
lower (String.◌∷◌ c s) = String.◌∷◌ (lower_char c) (lower s)

unfoldable pub codes_eq : List ℕ → List ℕ → Bool
codes_eq [] [] = true
codes_eq (c ∷ s) (d ∷ t) = c == d && codes_eq s t
codes_eq _ _ = false

-- `strings.EqualFold`.
unfoldable pub equal_fold : String → String → Bool
unfolding to_lower codes_eq
equal_fold s t = codes_eq (to_lower (codes s)) (to_lower (codes t))

-- `strings.CutPrefix s p`: what follows the prefix, if the text has it.
unfoldable pub cut_prefix : String → String → Option String
cut_prefix s String.[] = some s
cut_prefix String.[] (String.◌∷◌ p ps) = none
cut_prefix (String.◌∷◌ c s) (String.◌∷◌ p ps) = if code c == code p then cut_prefix s ps else none

pub cut_prefix-append : (p s : String) → cut_prefix (append p s) p ≡ some s
unfolding cut_prefix
cut_prefix-append String.[] s = ap some (nil s)
cut_prefix-append (String.◌∷◌ c p) s = rw (cons c p s) (ground (arith, cut_prefix-append p s))

pub cut_prefix-some : (s p rest : String) → cut_prefix s p ≡ some rest → s ≡ append p rest
unfolding cut_prefix
cut_prefix-some s String.[] rest e = let same : s ≡ rest = cc e in same ∙ sym (nil rest)
cut_prefix-some String.[] (String.◌∷◌ p ps) rest e = cc e
cut_prefix-some (String.◌∷◌ c s) (String.◌∷◌ p ps) rest e = elim (Bool-cases (code c == code p)) [
  | inl same ↦
      let tail = cut_prefix-some s ps rest (rw same at e) in
      let first : c ≡ p = Char-path c p (ground (arith, same)) in
      ap₂ String.◌∷◌ first tail ∙ sym (cons p ps rest)
  | inr other ↦ cc (rw other at e)
]

-- `strings.HasPrefix(strings.ToLower(s), p)`.
unfoldable pub has_prefix_fold : List ℕ → List ℕ → Bool
has_prefix_fold s [] = true
has_prefix_fold [] (p ∷ ps) = false
has_prefix_fold (c ∷ s) (p ∷ ps) = c == p && has_prefix_fold s ps

-- `s < t`: Go compares bytes, and UTF-8 orders texts as their characters do.
abbrev pub str_lt : String → String → Bool
str_lt s t = elim (compare s t) [ Ordering.lt ↦ true | _ ↦ false ]

blank_test : (is_blank " \t" ≡ true) × (is_blank " a " ≡ false) × (trim_space " a b " ≡ "a b")
unfolding is_blank
blank_test = (refl, refl, refl)

lower_test : lower " Admin-X" ≡ " admin-x"
unfolding lower
lower_test = refl

fold_test : equal_fold "Exists" "eXISTS" ≡ true
unfolding equal_fold
fold_test = refl
