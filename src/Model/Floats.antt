-- ===== src/Model/Floats.antt =====
-- float64 and time.Time. Floating point is a parameter: a type with the operations that the
-- program calls. A time is its nanoseconds since Go's zero time, which is 0.
use distributed_container_or.Base.{ℕ, ◌-◌, ◌^◌, ◌==◌, Bool, ltb, leb, if◌then◌else◌, ℤ, pos, negsuc}

pub record Float (F : Type 0) : Type 0 where
  pub of_int : ℤ → F
  -- The literal n / 100.
  pub hundredths : ℕ → F
  pub add : F → F → F
  pub sub : F → F → F
  pub mul : F → F → F
  pub div : F → F → F
  pub abs : F → F
  pub max_f : F → F → F
  pub lt : F → F → Bool
  pub le : F → F → Bool
  -- `int(math.Ceil(x))`.
  pub ceil : F → ℤ

abbrev pub Time : Type 0
Time = ℕ

abbrev pub is_zero : Time → Bool
is_zero t = t == 0

abbrev pub second : ℕ
second = 1_000_000_000

-- `t.Sub(u)`, which saturates at the bounds of a 64-bit duration.
unfoldable pub sub_time : Time → Time → ℤ
sub_time t u =
    if leb u t
    then (if ltb (t - u) (2 ^ 63) then pos (t - u) else pos (2 ^ 63 - 1))
    else (if ltb (u - t - 1) (2 ^ 63) then negsuc (u - t - 1) else negsuc (2 ^ 63 - 1))
