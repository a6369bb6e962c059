-- ===== src/Numbers/Rounding.antt =====
-- Arithmetic of doubles: the exact result, rounded to the nearest double, a tie to the even one.
-- All operands here are finite and not negative, and no result of the sources comes near 2^1024.
use music_downloader.Prelude.{
  ℕ, zero, suc, ◌+◌, ◌-◌, ◌*◌, ◌/◌, ◌%◌, ◌^◌, ltb, ◌==◌, if◌then◌else◌, ◌≡◌, refl, false,
}
use music_downloader.Numbers.{one}

-- The natural number nearest to `a / b`, a tie to the even one.
nearest : ℕ → ℕ → ℕ
nearest a b =
    let q = a / b in
    let twice = 2 * (a % b) in if ltb twice b then q else if ltb b twice then q + 1 else q + q % 2

-- A significand has 53 bits: halve the grid until the quotient fits.
round_from : ℕ → ℕ → ℕ → ℕ
unfolding nearest
round_from zero a b = nearest a b
round_from (suc fuel) a b =
    let coarser = 2 * round_from fuel a (2 * b) in
    if ltb (a / b) (2 ^ 53) then nearest a b else coarser

-- `a / b` units, rounded. A finite double takes at most 2046 halvings.
unfoldable pub round : ℕ → ℕ → ℕ
unfolding round_from
round a b = round_from 2046 a b

-- `n` as a double.
unfoldable pub of_ℕ : ℕ → ℕ
unfolding round
of_ℕ n = round (n * one) 1

-- The literal `n / 10 ^ d`.
unfoldable pub literal : ℕ → ℕ → ℕ
unfolding round
literal n d = round (n * one) (10 ^ d)

unfoldable pub add : ℕ → ℕ → ℕ
unfolding round
add x y = round (x + y) 1

-- `x - y`, and 0 where that is negative: the sources clamp it.
unfoldable pub sub_or_zero : ℕ → ℕ → ℕ
unfolding round
sub_or_zero x y = round (x - y) 1

unfoldable pub mul : ℕ → ℕ → ℕ
unfolding round
mul x y = round (x * y) one

-- `x / y` for `y` other than 0.
unfoldable pub div : ℕ → ℕ → ℕ
unfolding round
div x y = round (x * one) y

-- 0.1 + 0.2 is not 0.3.
tenths : (add (literal 1 1) (literal 2 1) == literal 3 1) ≡ false
unfolding add literal
tenths = refl

quarters : add (literal 25 2) (literal 5 1) ≡ literal 75 2
unfolding add literal
quarters = refl
