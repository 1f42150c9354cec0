-- ===== src/Base/Print.antt =====
-- The parts of Go's `fmt` and `time` packages that print: `%d`, and a time in UTC as RFC 3339 with
-- nanoseconds. A time is its nanoseconds since the start of the year 1.
use Prim.Native.Nat.{ℕ, zero, suc, ◌+◌, ◌-◌, ◌*◌, ◌/◌, ◌%◌, min}
use Prim.Native.String.{String, ◌++◌ as append}
use mathlib.Core.Path.{◌≡◌, refl}
use mathlib.Core.Bool.{Bool, ◌&&◌, ◌||◌, not}
use mathlib.Core.List.{List, [], ◌∷◌}
use distributed_container_or.Base.Tests.{ltb, ◌==◌, if◌then◌else◌}
use distributed_container_or.Base.Lists.{get_or}
use distributed_container_or.Base.Int.{ℤ, pos, negsuc}

digit : ℕ → String
digit d = get_or ("0" ∷ "1" ∷ "2" ∷ "3" ∷ "4" ∷ "5" ∷ "6" ∷ "7" ∷ "8" ∷ "9" ∷ []) d ""

-- The number itself is fuel enough: each round divides it by ten.
print_digits : ℕ → ℕ → String
unfolding digit
print_digits zero n = digit n
print_digits (suc fuel) n =
    let rest = append (print_digits fuel (n / 10)) (digit (n % 10)) in
    if ltb n 10 then digit n else rest

-- `%d`.
unfoldable pub decimal : ℤ → String
unfolding print_digits
decimal (pos n) = print_digits n n
decimal (negsuc n) = append "-" (print_digits (suc n) (suc n))

-- The last `width` digits.
padded : ℕ → ℕ → String
unfolding digit
padded zero n = ""
padded (suc width) n = append (padded width (n / 10)) (digit (n % 10))

-- The fraction of a second without the zeros at its end.
fraction : ℕ → ℕ → String
unfolding padded
fraction zero n = ""
fraction (suc width) n =
    let shorter = fraction width (n / 10) in
    if n % 10 == 0 then shorter else append "." (padded (suc width) n)

is_leap : ℕ → Bool
is_leap y = (y % 4 == 0 && not (y % 100 == 0)) || y % 400 == 0

-- The month and the day of it, from the lengths of the months that are left.
month_day : ℕ → ℕ → List ℕ → String
unfolding padded
month_day m day [] = ""
month_day m day (n ∷ ns) =
    let later = month_day (m + 1) (day - n) ns in
    if ltb day n then append (padded 2 m) (append "-" (padded 2 (day + 1))) else later

-- The date of a day, counted from the first of January of the year 1.
date : ℕ → String
unfolding padded is_leap month_day
date days =
    let in_era = days % 146_097 in
    let century = min (in_era / 36_524) 3 in
    let in_century = in_era - century * 36_524 in
    let in_cycle = in_century % 1_461 in
    let year_of_cycle = min (in_cycle / 365) 3 in
    let year =
      400 * (days / 146_097) + 100 * century + 4 * (in_century / 1_461) + year_of_cycle + 1 in
    let february : ℕ = if is_leap year then 29 else 28 in
    append (padded 4 year) (
      append "-" (
        month_day 1 (in_cycle - year_of_cycle * 365)
          (31 ∷ february ∷ 31 ∷ 30 ∷ 31 ∷ 30 ∷ 31 ∷ 31 ∷ 30 ∷ 31 ∷ 30 ∷ 31 ∷ [])))

-- `t.UTC().Format(time.RFC3339Nano)`, for the years up to 9999.
unfoldable pub rfc3339_nano : ℕ → String
unfolding date padded fraction
rfc3339_nano t =
    let s = t / 1_000_000_000 in
    let clock =
      append (padded 2 (s / 3_600 % 24))
        (append ":" (append (padded 2 (s / 60 % 60)) (append ":" (padded 2 (s % 60))))) in
    append (date (s / 86_400))
      (append "T" (append clock (append (fraction 9 (t % 1_000_000_000)) "Z")))

-- 1,700,000,000 seconds after 1970, and half a second.
rfc3339_nano_test :
    rfc3339_nano ((62_135_596_800 + 1_700_000_000) * 1_000_000_000 + 500_000_000)
    ≡ "2023-11-14T22:13:20.5Z"
unfolding rfc3339_nano
rfc3339_nano_test = refl

leap_day_test : rfc3339_nano (738_944 * 86_400 * 1_000_000_000) ≡ "2024-02-29T00:00:00Z"
unfolding rfc3339_nano
leap_day_test = refl

decimal_test : (decimal (pos 30_080) ≡ "30080") × (decimal (negsuc 6) ≡ "-7")
unfolding decimal
decimal_test = (refl, refl)
