-- ===== src/Downloader/Download/Commands.antt =====
-- packages/downloader/src/domain/download/commands.ts
use music_downloader.Prelude.{Option, List, String}
use music_downloader.Downloader.Candidate.{Candidate, CandidateIdentity, CandidateReference}
use music_downloader.Downloader.Policy.{DownloadPolicies}
use music_downloader.Downloader.Target.{Target}
use music_downloader.Downloader.Verdict.{ValidationVerdict}
use music_downloader.Downloader.Download.Events.{
  DownloadRequest, TryFailureReason, DownloadedFile, EditionCandidate,
}

pub data DownloadCommand : Type 0 where
  submit_download : DownloadRequest → DownloadPolicies → DownloadCommand
  record_target : Target → DownloadCommand
  record_metadata_failed : DownloadCommand
  record_manual_selection_requested : List EditionCandidate → DownloadCommand
  select_edition : (release_mbid : String) → DownloadCommand
  record_search_results : List Candidate → DownloadCommand
  record_try_started : CandidateIdentity → DownloadCommand
  record_try_completed : List DownloadedFile → CandidateIdentity → DownloadCommand
  record_try_failed :
      TryFailureReason → Option (List DownloadedFile) → CandidateIdentity → DownloadCommand
  record_validation_passed : ValidationVerdict → DownloadCommand
  record_validation_failed : ValidationVerdict → DownloadCommand
  record_imported : (location : String) → DownloadCommand
  record_import_conflict : (location : String) → DownloadCommand
  record_external_validation_failed : CandidateReference → (reasons : List String) → DownloadCommand
  cancel_download : DownloadCommand

-- `DownloadCommand['type']`, for the commands that a transition may refuse.
pub data DownloadCommandType : Type 0 where
  type_record_target type_record_metadata_failed type_record_manual_selection_requested :
      DownloadCommandType
  type_select_edition type_record_search_results type_record_try_started : DownloadCommandType
  type_record_try_completed type_record_try_failed : DownloadCommandType
  type_record_validation_passed type_record_validation_failed : DownloadCommandType
  type_record_imported type_record_import_conflict : DownloadCommandType
