-- ===== src/Downloader/Matching/Words.antt =====
-- packages/downloader/src/domain/matching/text.ts, and the text helpers of match-scorer.ts
use Prim.Native.Char.{Char, code}
use Prim.Native.String.{◌++◌ as cat}
use text.Mathlib.Text.{starts_with}
use music_downloader.Prelude.{
  ℕ, Bool, false, ◌||◌, ◌&&◌, not, Option, none, some, List, [], ◌∷◌, String, str_eq, ◌==◌, leb,
  if◌then◌else◌, get_or, is_empty, length, filter, any, ◌≡◌, refl,
}
use music_downloader.Text.{trim}
use music_downloader.Numbers.{one}
use music_downloader.Numbers.Rounding.{of_ℕ, div}
use music_downloader.Downloader.Runtime.{Runtime, plain_runtime}

-- What stands behind the last character that passes the test.
after_last : (ℕ → Bool) → String → Option String
after_last p String.[] = none
after_last p (String.◌∷◌ c s) = elim (after_last p s) [
  | some r ↦ some r
  | none ↦ if p (code c) then some s else none
]

unfoldable pub after_last_dot : String → Option String
unfolding after_last
after_last_dot s = after_last (λ c. c == 46) s

-- The last part of a path, by `/` and `\`.
unfoldable pub basename : String → String
unfolding after_last
basename path = get_or (after_last (λ c. c == 47 || c == 92) path) path

unfoldable pub join_spaces : List String → String
join_spaces [] = ""
join_spaces (w ∷ []) = w
join_spaces (w ∷ v ∷ ws) = cat w (cat " " (join_spaces (v ∷ ws)))

unfoldable pub includes : String → String → Bool
includes String.[] part = str_eq part ""
includes (String.◌∷◌ c s) part = starts_with (String.◌∷◌ c s) part || includes s part

-- `[̀-ͯ]`: the combining marks U+0300 to U+036F.
abbrev is_combining : ℕ → Bool
is_combining c = leb 768 c && leb c 879

strip_combining : String → String
strip_combining String.[] = ""
strip_combining (String.◌∷◌ c s) =
    if is_combining (code c) then strip_combining s else String.◌∷◌ c (strip_combining s)

-- `[a-z0-9]`
abbrev is_alphanumeric : ℕ → Bool
is_alphanumeric c = leb 97 c && leb c 122 || leb 48 c && leb c 57

-- Each run of other characters becomes one space; `in_run` holds inside such a run.
collapse : Bool → String → String
collapse in_run String.[] = ""
collapse in_run (String.◌∷◌ c s) =
    let kept = is_alphanumeric (code c) in
    let rest = collapse (not kept) s in
    if kept then String.◌∷◌ c rest else if in_run then rest else cat " " rest

unfoldable pub normalize_text : Runtime → String → String
unfolding strip_combining collapse trim
normalize_text js input = trim (collapse false (js.lower (strip_combining (js.nfkd input))))

abbrev put_before : Char → List String → List String
put_before c [] = String.◌∷◌ c "" ∷ []
put_before c (w ∷ ws) = String.◌∷◌ c w ∷ ws

-- `split(' ')`
split_spaces : String → List String
split_spaces String.[] = "" ∷ []
split_spaces (String.◌∷◌ c s) =
    if code c == 32 then "" ∷ split_spaces s else put_before c (split_spaces s)

unfoldable pub tokenize : Runtime → String → List String
unfolding normalize_text split_spaces
tokenize js input =
    let normalized = normalize_text js input in
    if str_eq normalized "" then [] else split_spaces normalized

unfoldable pub containment_score : List String → List String → ℕ
unfolding of_ℕ div
containment_score query_tokens text_tokens =
    if is_empty query_tokens
    then one
    else let matched = length (filter (λ t. any (λ p. str_eq p t) text_tokens) query_tokens) in
      div (of_ℕ matched) (of_ℕ (length query_tokens))

tokenize_example :
    tokenize plain_runtime "  ok (computer) - 1997 " ≡ "ok" ∷ "computer" ∷ "1997" ∷ []
unfolding tokenize
tokenize_example = refl

basename_example : basename "music\\radiohead/ok computer" ≡ "ok computer"
unfolding basename
basename_example = refl
