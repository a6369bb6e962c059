-- ===== src/Text.antt =====
-- Text as the sources use it: `String(n)` for a natural number, `trim`, and the code points of a text.
use Prim.Native.String.{◌++◌ as cat}
use Prim.Native.Char.{Char, code}
pub mod Laws
use music_downloader.Prelude.{
  ℕ, zero, suc, ◌/◌, ◌%◌, ◌<◌, ◌||◌, ◌&&◌, Bool, List, [], ◌∷◌, String, ltb, ◌==◌, if◌then◌else◌,
  ◌≡◌, refl,
}

abbrev pub codes : String → List ℕ
codes String.[] = []
codes (String.◌∷◌ c s) = code c ∷ codes s

digit : ℕ → String
digit d =
    if d == 0
    then "0"
    else if d == 1
    then "1"
    else if d == 2
    then "2"
    else if d == 3
    then "3"
    else if d == 4
    then "4"
    else if d == 5
    then "5"
    else if d == 6
    then "6"
    else if d == 7
    then "7"
    else if d == 8
    then "8"
    else "9"

-- Each round divides by ten, so the number itself, plus one, is fuel enough (`decimal_value`).
decimal_from : ℕ → ℕ → String
unfolding digit
decimal_from zero n = ""
decimal_from (suc fuel) n =
    let rest = cat (decimal_from fuel (n / 10)) (digit (n % 10)) in
    if ltb n 10 then digit n else rest

-- `String(n)`. (From 10 ^ 21 on a JavaScript number is printed with an exponent.)
unfoldable pub decimal : ℕ → String
unfolding decimal_from
decimal n = decimal_from (suc n) n

-- The white space that `trim` removes.
abbrev is_space : ℕ → Bool
is_space c =
    c == 32
    || c == 9
    || c == 10
    || c == 11
    || c == 12
    || c == 13
    || c == 160
    || c == 5760
    || c == 8232
    || c == 8233
    || c == 8239
    || c == 8287
    || c == 12288
    || c == 65279
    || ltb 8191 c && ltb c 8203

trim_start : String → String
trim_start String.[] = ""
trim_start (String.◌∷◌ c s) = if is_space (code c) then trim_start s else (String.◌∷◌ c s)

-- A character is kept if it is no space, or if something is kept behind it.
keep_before : Char → String → String
keep_before c String.[] = if is_space (code c) then "" else String.◌∷◌ c ""
keep_before c (String.◌∷◌ d r) = String.◌∷◌ c (String.◌∷◌ d r)

trim_end : String → String
unfolding keep_before
trim_end String.[] = ""
trim_end (String.◌∷◌ c s) = keep_before c (trim_end s)

unfoldable pub trim : String → String
unfolding trim_start trim_end
trim s = trim_end (trim_start s)

decimal_example : decimal 302400 ≡ "302400"
unfolding decimal
decimal_example = refl

trim_example : trim "  a b \n" ≡ "a b"
unfolding trim
trim_example = refl
