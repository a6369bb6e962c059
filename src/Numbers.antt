-- ===== src/Numbers.antt =====
-- JavaScript numbers where the sources compare or round them. A double is a whole multiple of
-- 2^-1074, so a double that is not negative is given by that multiple, and comparing two doubles is
-- comparing the multiples; the value 1 is 2^1074.
pub mod Rounding
use music_downloader.Prelude.{ℕ, ◌^◌, Bool, true, false, ltb}

abbrev pub one : ℕ
one = 2 ^ 1074

-- A value of the type `number`. `negative n` is -(n + 1) units of 2^-1074.
pub data Number : Type 0 where
  nan minus_infinity infinity : Number
  negative : ℕ → Number
  nonneg : ℕ → Number

unfoldable pub is_finite : Number → Bool
is_finite (negative n) = true
is_finite (nonneg n) = true
is_finite _ = false

unfoldable pub is_negative : Number → Bool
is_negative minus_infinity = true
is_negative (negative n) = true
is_negative _ = false

-- `value > 1`
unfoldable pub exceeds_one : Number → Bool
exceeds_one infinity = true
exceeds_one (nonneg n) = ltb one n
exceeds_one _ = false
