-- ===== src/Base/Float.antt =====
-- Go's `float64`, held as its IEEE 754 bit pattern. The order is computed on the pattern; the
-- rounded operations are a parameter.
use lynx_sentinel.Base.{ℕ, String, Option, ◌+◌, ◌-◌, ◌%◌, Bool, not, ◌&&◌, ltb, if◌then◌else◌}
use lynx_sentinel.Base.Words.{two63}

abbrev pub infinity : ℕ
infinity = 0x7ff0000000000000

-- The pattern without its sign bit.
unfoldable pub magnitude : ℕ → ℕ
magnitude x = x % two63

unfoldable pub is_nan : ℕ → Bool
is_nan x = ltb infinity (magnitude x)

-- The place of a number on the line, the two zeros together.
unfoldable pub rank : ℕ → ℕ
rank x = if ltb x two63 then two63 + magnitude x else two63 - magnitude x

-- `x < y`: false as soon as one side is not a number.
unfoldable pub lt_f : ℕ → ℕ → Bool
lt_f x y = not (is_nan x) && not (is_nan y) && ltb (rank x) (rank y)

abbrev pub zero_f : ℕ
zero_f = 0

-- 1e6.
abbrev pub million_f : ℕ
million_f = 0x412e848000000000

-- The rounded operations of the processor, and what package time makes of a `time.Duration`, an
-- int64 of nanoseconds: `Seconds`, `String` and `ParseDuration`.
pub record Platform : Type 0 where
  pub add : ℕ → ℕ → ℕ
  pub div : ℕ → ℕ → ℕ
  pub of_int64 : ℕ → ℕ
  pub seconds : ℕ → ℕ
  pub duration_text : ℕ → String
  pub parse_duration : String → Option ℕ
