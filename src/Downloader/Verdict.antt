-- ===== src/Downloader/Verdict.antt =====
-- packages/downloader/src/domain/validation/verdict.ts
pub mod Passing
use music_downloader.Prelude.{ℕ, Bool, Option, none, some, List, [], ◌∷◌, ◌++◌, String, leb, min}
use music_downloader.Numbers.{nonneg}
use music_downloader.Downloader.Policy.{MatchPolicy, clamp_unit}

pub data ValidationReason : Type 0 where
  unplayable wrong_track_count duration_mismatch recording_mismatch : ValidationReason
  quality_not_authentic : ValidationReason

pub record ValidationVerdict : Type 0 where
  pub confidence : ℕ
  pub reasons : List ValidationReason

pub record ValidatorOutcome : Type 0 where
  pub name : String
  pub score : ℕ
  pub reason : Option ValidationReason

-- `Math.min` of a list that is not empty.
unfoldable pub min_score : ValidatorOutcome → List ValidatorOutcome → ℕ
min_score o [] = o.score
min_score o (p ∷ ps) = min o.score (min_score p ps)

abbrev to_list {ℓ} : {A : Type ℓ} → Option A → List A
to_list none = []
to_list (some a) = a ∷ []

reasons_of : List ValidatorOutcome → List ValidationReason
reasons_of [] = []
reasons_of (o ∷ os) = to_list o.reason ++ reasons_of os

unfoldable pub combine_verdict : List ValidatorOutcome → ValidationVerdict
unfolding min_score reasons_of
combine_verdict [] = record { confidence = clamp_unit (nonneg 0); reasons = [] }
combine_verdict (o ∷ os) = record {
  confidence = clamp_unit (nonneg (min_score o os));
  reasons = reasons_of (o ∷ os);
}

unfoldable pub is_verdict_passing : ValidationVerdict → MatchPolicy → Bool
is_verdict_passing verdict policy = leb policy.threshold verdict.confidence
