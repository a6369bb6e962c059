-- ===== src/Downloader/Matching.antt =====
-- packages/downloader/src/domain/matching/match-scorer.ts
pub mod Words
use Prim.Native.String.{◌++◌ as cat}
use music_downloader.Prelude.{
  ℕ, ◌+◌, ◌-◌, Bool, true, false, ◌||◌, Option, none, some, List, [], ◌∷◌, String, str_eq, ◌==◌,
  if◌then◌else◌, get_or, is_some, is_empty, length, filter, map, any, max,
}
use music_downloader.Text.{decimal}
use music_downloader.Numbers.{one, Number, nan, infinity, nonneg}
use music_downloader.Numbers.Rounding.{of_ℕ, literal, add, sub_or_zero, mul, div}
use music_downloader.Downloader.Runtime.{Runtime}
use music_downloader.Downloader.Candidate.{Candidate, CandidateFile}
use music_downloader.Downloader.Target.{Target}
use music_downloader.Downloader.Policy.{clamp_unit}
use music_downloader.Downloader.Duration.{alignment_score, distance}
use Words.{
  after_last_dot, basename, join_spaces, includes, normalize_text, tokenize, containment_score,
}

pub record MatchSignal : Type 0 where
  pub name : String
  pub weight : ℕ
  -- `none` where the signal does not apply.
  pub score : Target → Candidate → Option ℕ

abbrev audio_extensions : List String
audio_extensions =
    "flac" ∷ "mp3" ∷ "m4a" ∷ "mp4" ∷ "aac" ∷ "ogg" ∷ "oga" ∷ "opus" ∷ "wav" ∷ "wave" ∷ "aiff"
    ∷ "aif" ∷ "ape" ∷ "wv" ∷ "alac" ∷ []

-- The numbers among optional ones.
abbrev given : List (Option ℕ) → List ℕ
given [] = []
given (none ∷ os) = given os
given (some n ∷ os) = n ∷ given os

module _ (js : Runtime) where
  abbrev lower_extension : Option String → String
  lower_extension none = ""
  lower_extension (some e) = js.lower e

  unfoldable pub file_extension : String → String
  unfolding after_last_dot
  file_extension name = lower_extension (after_last_dot name)

  unfoldable pub is_audio_file : CandidateFile → Bool
  unfolding file_extension
  is_audio_file file =
      is_some file.codec
      || is_some file.duration_ms
      || any (λ e. str_eq e (file_extension file.name)) audio_extensions

  unfoldable pub audio_files : Candidate → List CandidateFile
  unfolding is_audio_file
  audio_files candidate = filter is_audio_file candidate.files

  unfoldable pub candidate_text : Candidate → String
  unfolding normalize_text basename join_spaces
  candidate_text candidate = normalize_text js (
      cat (basename candidate.identity.path)
        (cat " " (join_spaces (map (λ f. f.name) candidate.files))))

  -- `1 - |actual - expected| / expected`, not below 0. No track expected makes it NaN or -Infinity,
  -- which are clamped to 0 too.
  unfoldable pub track_count_score : Target → Candidate → Option ℕ
  unfolding audio_files of_ℕ div sub_or_zero
  track_count_score target candidate =
      let actual = length (audio_files candidate) in
      let expected = length target.tracks in
      if expected == 0
      then some (clamp_unit nan)
      else some (
          clamp_unit
            (nonneg (sub_or_zero one (div (of_ℕ (distance actual expected)) (of_ℕ expected)))))

  unfoldable pub duration_score : Target → Candidate → Option ℕ
  unfolding audio_files alignment_score
  duration_score target candidate =
      let durations = given (map (λ f. f.duration_ms) (audio_files candidate)) in
      if is_empty durations
      then none
      else some
          (clamp_unit (nonneg (alignment_score (map (λ t. t.duration_ms) target.tracks) durations)))

  unfoldable pub title_score : Target → Candidate → Option ℕ
  unfolding candidate_text tokenize containment_score
  title_score target candidate = some (
      clamp_unit (
        nonneg
          (containment_score (tokenize js target.title) (tokenize js (candidate_text candidate)))))

  unfoldable pub artist_score : Target → Candidate → Option ℕ
  unfolding candidate_text tokenize containment_score
  artist_score target candidate = some (
      clamp_unit (
        nonneg
          (containment_score (tokenize js target.artist) (tokenize js (candidate_text candidate)))))

  abbrev score_of_year : Option ℕ → String → Option ℕ
  score_of_year none text = none
  score_of_year (some year) text =
      some (clamp_unit (nonneg (if includes text (decimal year) then one else 0)))

  unfoldable pub year_score : Target → Candidate → Option ℕ
  unfolding candidate_text includes decimal
  year_score target candidate = score_of_year target.year (candidate_text candidate)

  unfoldable pub default_match_signals : List MatchSignal
  unfolding literal track_count_score duration_score title_score artist_score year_score
  default_match_signals =
      record { name = "trackCount"; weight = literal 35 2; score = track_count_score }
      ∷ record { name = "duration"; weight = literal 35 2; score = duration_score }
      ∷ record { name = "title"; weight = literal 15 2; score = title_score }
      ∷ record { name = "artist"; weight = literal 1 1; score = artist_score }
      ∷ record { name = "year"; weight = literal 5 2; score = year_score }
      ∷ []

-- The quotient of two doubles that are not negative.
unfoldable pub quotient : ℕ → ℕ → Number
unfolding div
quotient weighted total =
    if total == 0 then (if weighted == 0 then nan else infinity) else nonneg (div weighted total)

-- The loop over the signals that apply: the weighted sum, and the sum of the weights.
unfoldable pub mean_from : ℕ → ℕ → List MatchSignal → Target → Candidate → ℕ
unfolding add mul quotient clamp_unit
mean_from weighted total [] target candidate = clamp_unit (quotient weighted total)
mean_from weighted total (signal ∷ signals) target candidate =
    elim (signal.score target candidate) [
      | none ↦ mean_from weighted total signals target candidate
      | some score ↦
          mean_from (add weighted (mul score signal.weight)) (add total signal.weight) signals
            target candidate
    ]

unfoldable pub score_match_by : List MatchSignal → Target → Candidate → ℕ
unfolding mean_from
score_match_by signals target candidate = mean_from 0 0 signals target candidate

-- `scoreMatch` with its default signals.
unfoldable pub score_match : Runtime → Target → Candidate → ℕ
unfolding score_match_by default_match_signals
score_match js = score_match_by (default_match_signals js)
