-- ===== src/Downloader/Duration.antt =====
-- packages/downloader/src/domain/shared/duration.ts
-- Durations are whole milliseconds below 2^53, which doubles represent exactly.
use music_downloader.Prelude.{
  ℕ, ◌+◌, ◌-◌, ◌*◌, Bool, true, List, [], ◌∷◌, leb, ◌==◌, if◌then◌else◌, length, max, ◌≡◌, refl,
}
use music_downloader.Sorting.{difference, to_sorted}
use music_downloader.Numbers.{one}
use music_downloader.Numbers.Rounding.{of_ℕ, literal, mul, div}

abbrev pub duration_tolerance_ms : ℕ
duration_tolerance_ms = 5000

unfoldable pub duration_tolerance_fraction : ℕ
unfolding literal
duration_tolerance_fraction = literal 4 2

-- `Math.abs(a - b)` of whole numbers.
abbrev pub distance : ℕ → ℕ → ℕ
distance a b = (a - b) + (b - a)

unfoldable pub is_within_duration_tolerance : ℕ → ℕ → Bool
unfolding mul of_ℕ duration_tolerance_fraction
is_within_duration_tolerance a b =
    let tolerance = max (duration_tolerance_ms * one) (mul (of_ℕ a) duration_tolerance_fraction) in
    leb (distance a b * one) tolerance

-- How many of the expected durations have a counterpart at their place that they align with.
unfoldable pub count_aligned : List ℕ → List ℕ → ℕ
unfolding is_within_duration_tolerance
count_aligned [] actual = 0
count_aligned (e ∷ es) [] = 0
count_aligned (e ∷ es) (a ∷ rest) =
    (if is_within_duration_tolerance e a then 1 else 0) + count_aligned es rest

unfoldable pub alignment_score : List ℕ → List ℕ → ℕ
unfolding count_aligned to_sorted of_ℕ div
alignment_score [] actual = 0
alignment_score (e ∷ es) actual =
    let expected = e ∷ es in
    div (of_ℕ (count_aligned (to_sorted difference expected) (to_sorted difference actual)))
      (of_ℕ (length expected))

-- Two of three tracks align, in another order; the third is 6 seconds off.
alignment_example :
    (alignment_score (200_000 ∷ 100_000 ∷ []) (103_000 ∷ 204_000 ∷ []) == one) ≡ true
unfolding alignment_score
alignment_example = refl
