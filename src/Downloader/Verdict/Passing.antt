-- ===== src/Downloader/Verdict/Passing.antt =====
-- When a combined verdict passes.
use music_downloader.Prelude.{ℕ, ◌≤◌, ◌≡◌, true, List, [], ◌∷◌, leb, min, arith, All, ◌↔◌, leb→le}
use music_downloader.Numbers.{one}
use music_downloader.Downloader.Policy.{MatchPolicy, clamp_unit}
use music_downloader.Downloader.Verdict.{
  ValidatorOutcome, min_score, combine_verdict, is_verdict_passing,
}

below_min :
    (n : ℕ) (o : ValidatorOutcome) (os : List ValidatorOutcome)
    → n ≤ min_score o os
    → All (λ x. n ≤ x.score) (o ∷ os)
unfolding min_score
below_min n o [] h = (h, tt)
below_min n o (p ∷ ps) h = (omega arith, below_min n p ps (omega arith))

min_below :
    (n : ℕ) (o : ValidatorOutcome) (os : List ValidatorOutcome)
    → All (λ x. n ≤ x.score) (o ∷ os)
    → n ≤ min_score o os
unfolding min_score
min_below n o [] h = h.0
min_below n o (p ∷ ps) h = omega (arith, h.0, min_below n p ps h.1)

-- Under a threshold of the unit interval, the verdict combined from one or more outcomes passes
-- exactly when every outcome reaches the threshold.
pub passes_when_each_reaches :
    (policy : MatchPolicy) (o : ValidatorOutcome) (os : List ValidatorOutcome)
    → policy.threshold ≤ one
    → (is_verdict_passing (combine_verdict (o ∷ os)) policy ≡ true)
      ↔ All (λ x. policy.threshold ≤ x.score) (o ∷ os)
unfolding is_verdict_passing combine_verdict clamp_unit
passes_when_each_reaches policy o os unit = (
  λ h. below_min policy.threshold o os (at_most_min (min_score o os) (leb→le policy.threshold _ h)),
  λ h. reaches (min_score o os) (min_below policy.threshold o os h),
)
  where
    at_most_min : (m : ℕ) → policy.threshold ≤ min one m → policy.threshold ≤ m
    at_most_min m h = omega arith

    reaches : (m : ℕ) → policy.threshold ≤ m → leb policy.threshold (min one m) ≡ true
    reaches m h = ground arith
