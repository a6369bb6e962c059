-- ===== src/Downloader/Validators.antt =====
-- packages/downloader/src/domain/validation/validators.ts
use music_downloader.Prelude.{
  ℕ, Bool, ◌&&◌, not, Option, none, some, List, String, leb, ◌==◌, if◌then◌else◌, is_empty, all,
  length, map,
}
use music_downloader.Numbers.{one, nonneg}
use music_downloader.Downloader.Target.{Target}
use music_downloader.Downloader.Policy.{clamp_unit}
use music_downloader.Downloader.Duration.{alignment_score}
use music_downloader.Downloader.Verdict.{
  ValidatorOutcome, unplayable, wrong_track_count, duration_mismatch,
}

pub record ProbedAudio : Type 0 where
  pub decoded_cleanly : Bool
  pub codec : String
  pub duration_ms : ℕ
  pub sample_rate : Option ℕ
  pub bit_depth : Option ℕ
  pub bitrate : Option ℕ
  pub channels : Option ℕ

unfoldable pub playability_validator : List ProbedAudio → ValidatorOutcome
playability_validator probes =
    let is_all_playable = not (is_empty probes) && all (λ p. p.decoded_cleanly) probes in
    if is_all_playable
    then record { name = "playability"; score = clamp_unit (nonneg one); reason = none }
    else record { name = "playability"; score = clamp_unit (nonneg 0); reason = some unplayable }

unfoldable pub structural_identity_validator : List ProbedAudio → Target → ValidatorOutcome
structural_identity_validator probes target =
    let score = clamp_unit (
      nonneg (
        alignment_score (map (λ t. t.duration_ms) target.tracks)
          (map (λ p. p.duration_ms) probes))) in
    if not (length probes == length target.tracks)
    then record {
      name = "structuralIdentity";
      score = clamp_unit (nonneg 0);
      reason = some wrong_track_count;
    }
    else if leb one score
    then record { name = "structuralIdentity"; score = clamp_unit (nonneg one); reason = none }
    else record { name = "structuralIdentity"; score = score; reason = some duration_mismatch }
