-- ===== src/Text/Laws.antt =====
-- Texts are equal when their code points are, and `String(n)` tells numbers apart.
use Prim.Native.String.{◌++◌ as cat}
use Prim.Native.Char.{Char, code}
use text.Mathlib.TextLemmas.{nil-append, cons-append}
use text.Mathlib.TextEquality.{Char-path}
use music_downloader.Prelude.{
  ℕ, zero, suc, ◌+◌, ◌*◌, ◌-◌, ◌/◌, ◌%◌, ◌<◌, List, [], ◌∷◌, ◌++◌, String, ltb, ◌≡◌, refl, sym, ap,
  ◌∙◌, arith, Bool-cases, inl, inr, ltb→lt,
}
use music_downloader.Text.{codes, digit, decimal_from, decimal}

pub codes-cat : (s t : String) → codes (cat s t) ≡ codes s ++ codes t
codes-cat String.[] t = rw nil-append
codes-cat (String.◌∷◌ c s) t = rw cons-append (ap (◌∷◌ (code c)) (codes-cat s t))

cons_path : {c d : Char} {s t : String} → c ≡ d → s ≡ t → String.◌∷◌ c s ≡ String.◌∷◌ d t
cons_path p q = λ i. String.◌∷◌ (p i) (q i)

pub codes_injective : (s t : String) → codes s ≡ codes t → s ≡ t
codes_injective String.[] String.[] h = refl
codes_injective String.[] (String.◌∷◌ d t) h = cc
codes_injective (String.◌∷◌ c s) String.[] h = cc
codes_injective (String.◌∷◌ c s) (String.◌∷◌ d t) h =
    cons_path (Char-path c d (ground arith)) (codes_injective s t (ground arith))

-- The number that decimal digits stand for, read from the left.
abbrev value_from : ℕ → List ℕ → ℕ
value_from acc [] = acc
value_from acc (c ∷ cs) = value_from (acc * 10 + (c - 48)) cs

value_from-append :
    (acc : ℕ) (xs ys : List ℕ) → value_from acc (xs ++ ys) ≡ value_from (value_from acc xs) ys
value_from-append acc [] ys = refl
value_from-append acc (x ∷ xs) ys = value_from-append (acc * 10 + (x - 48)) xs ys

value-digit : (acc d : ℕ) → d < 10 → value_from acc (codes (digit d)) ≡ acc * 10 + d
unfolding digit
value-digit acc zero h = omega arith
value-digit acc (suc zero) h = omega arith
value-digit acc (suc (suc zero)) h = omega arith
value-digit acc (suc (suc (suc zero))) h = omega arith
value-digit acc (suc (suc (suc (suc zero)))) h = omega arith
value-digit acc (suc (suc (suc (suc (suc zero))))) h = omega arith
value-digit acc (suc (suc (suc (suc (suc (suc zero)))))) h = omega arith
value-digit acc (suc (suc (suc (suc (suc (suc (suc zero))))))) h = omega arith
value-digit acc (suc (suc (suc (suc (suc (suc (suc (suc zero)))))))) h = omega arith
value-digit acc (suc (suc (suc (suc (suc (suc (suc (suc (suc zero))))))))) h = omega arith
value-digit acc (suc (suc (suc (suc (suc (suc (suc (suc (suc (suc d)))))))))) h =
    absurd (omega arith)

value-decimal_from : (fuel n : ℕ) → n < fuel → value_from 0 (codes (decimal_from fuel n)) ≡ n
unfolding decimal_from
value-decimal_from zero n h = elim h [ ]
value-decimal_from (suc fuel) n h = elim (Bool-cases (ltb n 10)) [
  | inl small ↦ rw small (value-digit 0 n (ltb→lt n 10 small) ∙ omega arith)
  | inr big ↦
      rw (big, codes-cat (decimal_from fuel (n / 10)) (digit (n % 10)))
        (rw (value_from-append 0 (codes (decimal_from fuel (n / 10))) (codes (digit (n % 10)))) (
          rw (value-decimal_from fuel (n / 10) (ground arith))
            (value-digit (n / 10) (n % 10) (omega arith) ∙ omega arith)))
]

pub decimal_value : (n : ℕ) → value_from 0 (codes (decimal n)) ≡ n
unfolding decimal
decimal_value n = value-decimal_from (suc n) n (omega arith)

pub decimal_injective : (m n : ℕ) → decimal m ≡ decimal n → m ≡ n
decimal_injective m n h =
    sym (decimal_value m) ∙ ap (λ s. value_from 0 (codes s)) h ∙ decimal_value n
