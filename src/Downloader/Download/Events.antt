-- ===== src/Downloader/Download/Events.antt =====
-- packages/downloader/src/domain/download/events.ts
use music_downloader.Prelude.{ℕ, Option, List, String}
use music_downloader.Downloader.Candidate.{Candidate, CandidateIdentity}
use music_downloader.Downloader.Policy.{DownloadPolicies}
use music_downloader.Downloader.Ranking.{RankedCandidate}
use music_downloader.Downloader.Target.{Target, TargetType}
use music_downloader.Downloader.Verdict.{ValidationVerdict}

-- The type of a release group's target is always `album`.
pub data DownloadRequest : Type 0 where
  musicbrainz : (mbid : String) → (target_type : TargetType) → DownloadRequest
  release_group : (mbid : String) → DownloadRequest
  descriptor :
      (target_type : TargetType)
      → (artist : String) → (title : String) → (album : Option String) → DownloadRequest

pub data TryFailureReason : Type 0 where
  peer_unavailable stalled queue_timeout transfer_error file_unavailable cancelled_at_source :
      TryFailureReason

pub record DownloadedFile : Type 0 where
  pub path : String
  pub name : String

pub record EditionCandidate : Type 0 where
  pub release_mbid : String
  pub title : Option String
  pub date : Option String
  pub country : Option String
  pub format : Option String
  pub track_count : Option ℕ

pub data DownloadEvent : Type 0 where
  download_requested : DownloadRequest → DownloadPolicies → DownloadEvent
  target_resolved : Target → DownloadEvent
  metadata_resolution_failed : DownloadEvent
  manual_selection_requested : List EditionCandidate → DownloadEvent
  edition_selected : (release_mbid : String) → DownloadEvent
  search_requested : (round : ℕ) → DownloadEvent
  search_completed : (round : ℕ) → List Candidate → DownloadEvent
  candidates_ranked : List RankedCandidate → DownloadEvent
  candidate_selected : Candidate → DownloadEvent
  try_started : CandidateIdentity → DownloadEvent
  try_completed : CandidateIdentity → List DownloadedFile → DownloadEvent
  try_failed : CandidateIdentity → TryFailureReason → DownloadEvent
  candidate_rejected : CandidateIdentity → Option (List DownloadedFile) → DownloadEvent
  validation_passed : CandidateIdentity → ValidationVerdict → DownloadEvent
  validation_failed : CandidateIdentity → ValidationVerdict → DownloadEvent
  imported : CandidateIdentity → (location : String) → Option (List DownloadedFile) → DownloadEvent
  download_fulfilled : (location : String) → Option CandidateIdentity → DownloadEvent
  fulfillment_rejected : CandidateIdentity → (reasons : List String) → DownloadEvent
  download_exhausted : DownloadEvent
  import_conflicted : (location : String) → Option (List DownloadedFile) → DownloadEvent
  download_cancelled : Option (List DownloadedFile) → DownloadEvent
