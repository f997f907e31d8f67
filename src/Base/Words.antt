-- ===== src/Base/Words.antt =====
-- Go's fixed-width integers, held as bit patterns: an `int64` x is the number x % 2 ^ 64.
use lynx_sentinel.Base.{ℕ, ◌+◌, ◌%◌, Bool, ltb, ◌&&◌}

abbrev pub two64 : ℕ
two64 = 18446744073709551616

abbrev pub two63 : ℕ
two63 = 9223372036854775808

-- `a + b` on `int64`, which wraps.
abbrev pub add64 : ℕ → ℕ → ℕ
add64 a b = (a + b) % two64

-- `0 < a` on `int64`: the sign bit is clear and the word is not zero.
abbrev pub is_positive64 : ℕ → Bool
is_positive64 a = ltb 0 a && ltb a two63

abbrev pub two32 : ℕ
two32 = 4294967296

abbrev pub two31 : ℕ
two31 = 2147483648

-- `a < b` on `int32`: the sign bits are flipped first.
abbrev pub lt32 : ℕ → ℕ → Bool
lt32 a b = ltb ((a + two31) % two32) ((b + two31) % two32)
