-- ===== src/Downloader/Download/Decide.antt =====
-- packages/downloader/src/domain/download/decide.ts
use music_downloader.Prelude.{
  ℕ, ◌+◌, Bool, true, false, not, some, List, [], ◌∷◌, String, str_eq, ltb, leb, if◌then◌else◌,
  is_empty, any, all, get_or, Result, ok, err,
}
use music_downloader.Downloader.Runtime.{Runtime}
use music_downloader.Downloader.Candidate.{
  Candidate, CandidateIdentity, CandidateReference, candidate_key, is_referring_to,
}
use music_downloader.Downloader.Policy.{DownloadPolicies}
use music_downloader.Downloader.Ranking.{RankedCandidate, rank_candidates}
use music_downloader.Downloader.Download.Events.{
  DownloadRequest, release_group, DownloadedFile, EditionCandidate, DownloadEvent,
  download_requested, target_resolved, metadata_resolution_failed, manual_selection_requested,
  edition_selected, search_requested, search_completed, candidates_ranked, candidate_selected,
  try_started, try_completed, try_failed, candidate_rejected, validation_passed, validation_failed,
  imported, download_fulfilled, fulfillment_rejected, download_exhausted, import_conflicted,
  download_cancelled,
}
use music_downloader.Downloader.Download.Commands.{
  DownloadCommand, submit_download, record_target, record_metadata_failed,
  record_manual_selection_requested, select_edition, record_search_results, record_try_started,
  record_try_completed, record_try_failed, record_validation_passed, record_validation_failed,
  record_imported, record_import_conflict, record_external_validation_failed, cancel_download,
  DownloadCommandType, type_record_target, type_record_metadata_failed,
  type_record_manual_selection_requested, type_select_edition, type_record_search_results,
  type_record_try_started, type_record_try_completed, type_record_try_failed,
  type_record_validation_passed, type_record_validation_failed, type_record_imported,
  type_record_import_conflict,
}
use music_downloader.Downloader.Download.State.{
  DownloadPhase, Progress, Requested, Targeted, FulfilledResume, in_flight, DownloadState, empty,
  pending, awaiting_manual_selection, searching, downloading, validating, importing, fulfilled,
  cancelled, phase_of, is_terminal,
}

pub data DomainError : Type 0 where
  already_exists : DomainError
  illegal_transition : DownloadCommandType → DownloadPhase → DomainError
  unknown_edition : (release_mbid : String) → DomainError

abbrev pub Decision : Type 0
Decision = Result DomainError (List DownloadEvent)

abbrev pub illegal : DownloadCommandType → DownloadState → Decision
illegal command s = err (illegal_transition command (phase_of s))

-- The loop over the incoming candidates; `seen` starts as the rejected keys.
unfoldable pub usable_candidates : List Candidate → List String → List Candidate
usable_candidates [] seen = []
usable_candidates (candidate ∷ incoming) seen =
    let key = candidate_key candidate.identity in
    let skipped = usable_candidates incoming seen in
    let admitted = candidate ∷ usable_candidates incoming (key ∷ seen) in
    if any (λ k. str_eq k key) seen then skipped else admitted

pub record LadderContext : Type 0 where
  pub policies : DownloadPolicies
  pub working : List RankedCandidate
  pub attempts : ℕ
  pub search_rounds : ℕ

abbrev pub try_next : List RankedCandidate → DownloadEvent → DownloadEvent
try_next [] otherwise = otherwise
try_next (next ∷ rest) otherwise = candidate_selected next.candidate

unfoldable pub select_next : LadderContext → DownloadEvent
select_next state =
    let retry = state.policies.retry in
    if leb retry.max_total_attempts state.attempts
    then download_exhausted
    else try_next state.working (
        if ltb state.search_rounds retry.max_search_rounds
        then search_requested (state.search_rounds + 1)
        else download_exhausted)

abbrev pub is_naming : CandidateIdentity → CandidateIdentity → Bool
is_naming named in_flight_one = str_eq (candidate_key named) (candidate_key in_flight_one)

abbrev pub staged_files_of : DownloadState → List DownloadedFile
staged_files_of (validating t w c files) = files
staged_files_of (importing t w c files) = files
staged_files_of _ = []

abbrev pub ladder_of : Targeted → List RankedCandidate → LadderContext
ladder_of t w = record {
  policies = t.policies;
  working = w;
  attempts = t.attempts;
  search_rounds = t.search_rounds;
}

unfoldable pub reject_and_advance :
    Targeted
    → List RankedCandidate
    → Candidate
    → DownloadEvent
    → List DownloadedFile
    → List DownloadEvent
unfolding select_next
reject_and_advance t working current failure files =
    failure
    ∷ candidate_rejected current.identity (some files)
    ∷ select_next (ladder_of t working)
    ∷ []

abbrev pub settle_cancelled : Candidate → List DownloadedFile → List DownloadEvent
settle_cancelled c files = candidate_rejected c.identity (some files) ∷ []

-- A command that only its own phase takes: terminal phases absorb it, and any other refuses it.
abbrev pub unless_terminal : DownloadCommandType → DownloadState → Decision
unless_terminal command s = if is_terminal s then ok [] else illegal command s

abbrev pub is_release_group : DownloadRequest → Bool
is_release_group (release_group mbid) = true
is_release_group _ = false

abbrev pub decide_manual_selection : Requested → List EditionCandidate → Decision
decide_manual_selection r candidates =
    if not (is_release_group r.request)
    then ok (metadata_resolution_failed ∷ [])
    else if is_empty candidates
    then ok (metadata_resolution_failed ∷ [])
    else ok (manual_selection_requested candidates ∷ [])

abbrev pub decide_edition : List EditionCandidate → String → Decision
decide_edition candidates release_mbid =
    if all (λ c. not (str_eq c.release_mbid release_mbid)) candidates
    then err (unknown_edition release_mbid)
    else ok (edition_selected release_mbid ∷ [])

unfoldable pub decide_search_results : Runtime → Targeted → List Candidate → List DownloadEvent
unfolding usable_candidates select_next
decide_search_results js t candidates =
    let usable = usable_candidates candidates t.rejected in
    let ranked = rank_candidates js usable t.target t.policies.quality t.policies.matching in
    search_completed (t.search_rounds + 1) candidates
    ∷ candidates_ranked ranked
    ∷ select_next (record {
      policies = t.policies;
      working = ranked;
      attempts = t.attempts;
      search_rounds = t.search_rounds + 1;
    })
    ∷ []

abbrev pub decide_outrun_start : CandidateIdentity → DownloadState → Candidate → Decision
decide_outrun_start named s current =
    if is_naming named current.identity then ok [] else illegal type_record_try_started s

abbrev pub decide_start : CandidateIdentity → Candidate → Bool → Decision
decide_start named current started =
    if not (is_naming named current.identity)
    then ok []
    else if started
    then ok []
    else ok (try_started current.identity ∷ [])

abbrev pub decide_settlement : CandidateIdentity → Candidate → List DownloadedFile → Decision
decide_settlement named pending_one files =
    ok (if is_naming named pending_one.identity then settle_cancelled pending_one files else [])

abbrev pub decide_external :
    CandidateReference → List String → Progress → FulfilledResume → Decision
decide_external reference reasons p resume =
    if not (is_referring_to reference resume.candidate.identity)
    then ok []
    else ok (
        fulfillment_rejected resume.candidate.identity reasons
        ∷ candidate_rejected resume.candidate.identity (some [])
        ∷ select_next (record {
          policies = resume.policies;
          working = resume.working;
          attempts = p.attempts;
          search_rounds = p.search_rounds;
        })
        ∷ [])

unfoldable pub decide : Runtime → DownloadCommand → DownloadState → Decision
unfolding select_next reject_and_advance
decide js (submit_download request policies) empty = ok (download_requested request policies ∷ [])
decide js (submit_download request policies) s = err already_exists
decide js (record_target target) (pending r) = ok (target_resolved target ∷ [])
decide js (record_target target) s = unless_terminal type_record_target s
decide js record_metadata_failed (pending r) = ok (metadata_resolution_failed ∷ [])
decide js record_metadata_failed s = unless_terminal type_record_metadata_failed s
decide js (record_manual_selection_requested candidates) (pending r) =
    decide_manual_selection r candidates
decide js (record_manual_selection_requested candidates) s =
    unless_terminal type_record_manual_selection_requested s
decide js (select_edition release_mbid) (awaiting_manual_selection r candidates) =
    decide_edition candidates release_mbid
decide js (select_edition release_mbid) s = illegal type_select_edition s
decide js (record_search_results candidates) (searching t) =
    ok (decide_search_results js t candidates)
decide js (record_search_results candidates) s = unless_terminal type_record_search_results s
decide js (record_try_started named) (validating t w current files) =
    decide_outrun_start named (validating t w current files) current
decide js (record_try_started named) (importing t w current files) =
    decide_outrun_start named (importing t w current files) current
decide js (record_try_started named) (downloading t w current started) =
    decide_start named current started
decide js (record_try_started named) s = unless_terminal type_record_try_started s
decide js (record_try_completed files named) (cancelled p (in_flight c)) =
    decide_settlement named c files
decide js (record_try_completed files named) (downloading t w current started) =
    if not (is_naming named current.identity)
    then ok []
    else ok (try_completed current.identity files ∷ [])
decide js (record_try_completed files named) s = unless_terminal type_record_try_completed s
decide js (record_try_failed reason files named) (cancelled p (in_flight c)) =
    decide_settlement named c (get_or files [])
decide js (record_try_failed reason files named) (downloading t w current started) =
    if not (is_naming named current.identity)
    then ok []
    else ok (reject_and_advance t w current (try_failed current.identity reason) (get_or files []))
decide js (record_try_failed reason files named) s = unless_terminal type_record_try_failed s
decide js (record_validation_passed verdict) (validating t w current files) =
    ok (validation_passed current.identity verdict ∷ [])
decide js (record_validation_passed verdict) s = unless_terminal type_record_validation_passed s
decide js (record_validation_failed verdict) (validating t w current files) =
    ok (reject_and_advance t w current (validation_failed current.identity verdict) files)
decide js (record_validation_failed verdict) s = unless_terminal type_record_validation_failed s
decide js (record_imported location) (importing t w current files) = ok (
    imported current.identity location (some files)
    ∷ download_fulfilled location (some current.identity)
    ∷ [])
decide js (record_imported location) s = unless_terminal type_record_imported s
decide js (record_import_conflict location) (importing t w current files) =
    ok (import_conflicted location (some files) ∷ [])
decide js (record_import_conflict location) s = unless_terminal type_record_import_conflict s
decide js (record_external_validation_failed reference reasons) (fulfilled p l (some resume)) =
    decide_external reference reasons p resume
decide js (record_external_validation_failed reference reasons) s = ok []
decide js cancel_download s =
    if is_terminal s then ok [] else ok (download_cancelled (some (staged_files_of s)) ∷ [])
