-- ===== src/Downloader/Download/Aggregate.antt =====
-- packages/downloader/src/domain/download/download.ts
use music_downloader.Prelude.{ℕ, Bool, false, Option, none, some, List, String, length}
use music_downloader.Downloader.Candidate.{CandidateIdentity}
use music_downloader.Downloader.Runtime.{Runtime}
use music_downloader.Downloader.Download.Events.{EditionCandidate, DownloadEvent}
use music_downloader.Downloader.Download.Commands.{DownloadCommand}
use music_downloader.Downloader.Download.State.{
  DownloadPhase, settled, DownloadState, awaiting_manual_selection, downloading, validating,
  importing, fulfilled, cancelled, conflicted, phase_of, progress_of, fold_events,
}
use music_downloader.Downloader.Download.Decide.{Decision, decide}
use music_downloader.Downloader.Download.React.{Effect, react}

pub record DownloadSnapshot : Type 0 where
  pub phase : DownloadPhase
  pub transfer_started : Bool
  pub current_candidate : Option CandidateIdentity
  pub attempts : ℕ
  pub rejected_count : ℕ
  pub location : Option String
  pub candidates : Option (List EditionCandidate)

unfoldable pub current_identity_of : DownloadState → Option CandidateIdentity
current_identity_of (cancelled p (settled c)) = some c.identity
current_identity_of (downloading t w c b) = some c.identity
current_identity_of (validating t w c fs) = some c.identity
current_identity_of (importing t w c fs) = some c.identity
current_identity_of (conflicted p l c) = some c.identity
current_identity_of _ = none

abbrev pub is_transferring : DownloadState → Bool
is_transferring (downloading t w c started) = started
is_transferring _ = false

abbrev pub location_of : DownloadState → Option String
location_of (fulfilled p l r) = some l
location_of (conflicted p l c) = some l
location_of _ = none

abbrev pub candidates_of : DownloadState → Option (List EditionCandidate)
candidates_of (awaiting_manual_selection r cs) = some cs
candidates_of _ = none

unfoldable pub snapshot : DownloadState → DownloadSnapshot
unfolding current_identity_of
snapshot s = record {
  phase = phase_of s;
  transfer_started = is_transferring s;
  current_candidate = current_identity_of s;
  attempts = (progress_of s).attempts;
  rejected_count = length (progress_of s).rejected;
  location = location_of s;
  candidates = candidates_of s;
}

-- `Download.fromHistory(events).execute(command)`
unfoldable pub execute : Runtime → List DownloadEvent → DownloadCommand → Decision
execute js events command = decide js command (fold_events events)

-- `Download.fromHistory(events).reactTo(event)`
unfoldable pub react_to : List DownloadEvent → DownloadEvent → List Effect
react_to events event = react event (fold_events events)
