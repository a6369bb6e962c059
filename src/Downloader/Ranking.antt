-- ===== src/Downloader/Ranking.antt =====
-- packages/downloader/src/domain/ranking/ranking.ts
pub mod Gate
use music_downloader.Prelude.{
  ℕ, Bool, true, false, ◌&&◌, not, Option, none, some, List, [], ◌∷◌, String, str_eq, leb, ◌==◌,
  if◌then◌else◌, get_or, filter, map,
}
use music_downloader.Sorting.{Sign, balanced, difference, to_sorted}
use music_downloader.Downloader.Runtime.{Runtime}
use music_downloader.Downloader.Candidate.{
  Candidate, CandidateFile, SourceReliability, candidate_key,
}
use music_downloader.Downloader.Target.{Target}
use music_downloader.Downloader.Policy.{MatchPolicy}
use music_downloader.Downloader.Matching.{audio_files, score_match}
use music_downloader.Downloader.Quality.{
  QualityAttributes, QualityBucket, unknown, QualityPolicy, resolve_quality_bucket, bucket_rank,
  rank_le, is_floor_met, compare_quality,
}

pub record RankedCandidate : Type 0 where
  pub candidate : Candidate
  pub match_confidence : ℕ
  pub quality_bucket : QualityBucket

file_attributes : CandidateFile → QualityAttributes
file_attributes file = record {
  codec = get_or file.codec "";
  bitrate = file.bitrate;
  sample_rate = file.sample_rate;
  bit_depth = file.bit_depth;
  is_lossless = none;
}

-- The loop that keeps the worst bucket so far.
unfoldable pub worst_from : QualityPolicy → QualityBucket → List QualityBucket → QualityBucket
worst_from policy worst [] = worst
worst_from policy worst (bucket ∷ rest) =
    worst_from policy
      (if rank_le (bucket_rank policy bucket) (bucket_rank policy worst) then worst else bucket)
      rest

abbrev worst_of : QualityPolicy → List QualityBucket → QualityBucket
worst_of policy [] = unknown
worst_of policy (b ∷ bs) = worst_from policy b (b ∷ bs)

unfoldable pub candidate_quality_bucket : Runtime → Candidate → QualityPolicy → QualityBucket
unfolding audio_files resolve_quality_bucket file_attributes worst_from bucket_rank
candidate_quality_bucket js candidate policy =
    worst_of policy
      (map (λ f. resolve_quality_bucket js.lower (file_attributes f)) (audio_files js candidate))

unfoldable pub compare_source : SourceReliability → SourceReliability → Sign
compare_source a b =
    if not (a.speed_bytes_per_sec == b.speed_bytes_per_sec)
    then difference b.speed_bytes_per_sec a.speed_bytes_per_sec
    else if not (a.free_slots == b.free_slots)
    then difference b.free_slots a.free_slots
    else difference a.queue_length b.queue_length

-- `by !== 0`, with the next criterion where it is 0.
abbrev pub or_else : Sign → Sign → Sign
or_else balanced next = next
or_else by next = by

unfoldable pub compare_ranked : Runtime → QualityPolicy → RankedCandidate → RankedCandidate → Sign
unfolding compare_quality compare_source
compare_ranked js quality x y =
    or_else (compare_quality quality x.quality_bucket y.quality_bucket) (
      if not (x.match_confidence == y.match_confidence)
      then difference y.match_confidence x.match_confidence
      else or_else (compare_source x.candidate.source y.candidate.source) (
          js.locale_compare (candidate_key x.candidate.identity)
            (candidate_key y.candidate.identity)))

unfoldable pub score_candidates :
    Runtime → Target → QualityPolicy → List Candidate → List RankedCandidate
score_candidates js target quality = map λ candidate. record {
  candidate = candidate;
  match_confidence = score_match js target candidate;
  quality_bucket = candidate_quality_bucket js candidate quality;
}

unfoldable pub passes_gate : QualityPolicy → MatchPolicy → RankedCandidate → Bool
passes_gate quality matching ranked =
    leb matching.threshold ranked.match_confidence && is_floor_met quality ranked.quality_bucket

unfoldable pub rank_candidates :
    Runtime → List Candidate → Target → QualityPolicy → MatchPolicy → List RankedCandidate
unfolding score_candidates passes_gate
rank_candidates js candidates target quality matching =
    let scored = score_candidates js target quality candidates in
    let gated = filter (passes_gate quality matching) scored in
    to_sorted (compare_ranked js quality) gated
