-- ===== src/Downloader/Download/Moves.antt =====
-- Every batch of events that `decide` mints, as a step relation.
use music_downloader.Prelude.{
  ◌≡◌, refl, Bool, true, false, Option, List, [], ◌∷◌, String, is_empty, Bool-cases, inl, inr, ok,
  err, get_or, ◌≤◌, some, all, not, str_eq,
}
use music_downloader.Downloader.Runtime.{Runtime}
use music_downloader.Downloader.Candidate.{Candidate, is_referring_to}
use music_downloader.Downloader.Policy.{DownloadPolicies}
use music_downloader.Downloader.Ranking.{RankedCandidate}
use music_downloader.Downloader.Target.{Target}
use music_downloader.Downloader.Verdict.{ValidationVerdict}
use music_downloader.Downloader.Download.Events.{
  DownloadRequest, TryFailureReason, DownloadedFile, EditionCandidate, DownloadEvent,
  download_requested, target_resolved, metadata_resolution_failed, manual_selection_requested,
  edition_selected, try_started, try_completed, try_failed, candidate_rejected, validation_passed,
  validation_failed, imported, download_fulfilled, fulfillment_rejected, import_conflicted,
  download_cancelled,
}
use music_downloader.Downloader.Download.Commands.{
  DownloadCommand, submit_download, record_target, record_metadata_failed,
  record_manual_selection_requested, select_edition, record_search_results, record_try_started,
  record_try_completed, record_try_failed, record_validation_passed, record_validation_failed,
  record_imported, record_import_conflict, record_external_validation_failed, cancel_download,
  DownloadCommandType, type_record_target, type_record_metadata_failed,
  type_record_manual_selection_requested, type_record_search_results, type_record_try_started,
  type_record_try_completed, type_record_try_failed, type_record_validation_passed,
  type_record_validation_failed, type_record_imported, type_record_import_conflict,
}
use music_downloader.Downloader.Download.State.{
  Progress, Requested, Targeted, FulfilledResume, CancelledStaging, nothing_staged, settled,
  in_flight, DownloadState, empty, pending, awaiting_manual_selection, searching, selecting,
  downloading, validating, importing, fulfilled, cancelled, is_terminal, progress_of, evolve,
}
use music_downloader.Downloader.Download.Decide.{
  Decision, DomainError, decide, is_release_group, unless_terminal, decide_search_results,
  reject_and_advance, is_naming, staged_files_of,
}

-- What `createRetryPolicy` has checked.
pub record IsValidRetry (p : DownloadPolicies) : Type 0 where
  pub some_round : 1 ≤ p.retry.max_search_rounds
  pub some_attempt : 1 ≤ p.retry.max_total_attempts

-- A download is submitted with policies that were created.
abbrev pub IsAdmissible : DownloadCommand → Type 0
IsAdmissible (submit_download request policies) = IsValidRetry policies
IsAdmissible _ = Unit

-- What a fulfilled download would resume from.
abbrev pub resumed : Progress → FulfilledResume → Targeted
resumed p resume = record {
  requested = record { progress = p; request = resume.request; policies = resume.policies };
  target = resume.target;
}

pub data Move (js : Runtime) : DownloadState → List DownloadEvent → Type 0 where
  submitted :
      (request : DownloadRequest) (policies : DownloadPolicies)
      → IsValidRetry policies
      → Move js empty (download_requested request policies ∷ [])
  resolved : (r : Requested) (target : Target) → Move js (pending r) (target_resolved target ∷ [])
  unresolved : (r : Requested) → Move js (pending r) (metadata_resolution_failed ∷ [])
  paused :
      (r : Requested) (candidates : List EditionCandidate)
      → is_release_group r.request ≡ true
      → is_empty candidates ≡ false
      → Move js (pending r) (manual_selection_requested candidates ∷ [])
  chosen :
      (r : Requested) (candidates : List EditionCandidate) (release_mbid : String)
      → all (λ c. not (str_eq c.release_mbid release_mbid)) candidates ≡ false
      → Move js (awaiting_manual_selection r candidates) (edition_selected release_mbid ∷ [])
  searched :
      (t : Targeted) (candidates : List Candidate)
      → Move js (searching t) (decide_search_results js t candidates)
  started :
      (t : Targeted) (w : List RankedCandidate) (c : Candidate)
      → Move js (downloading t w c false) (try_started c.identity ∷ [])
  completed :
      (t : Targeted) (w : List RankedCandidate) (c : Candidate) (b : Bool)
      (files : List DownloadedFile)
      → Move js (downloading t w c b) (try_completed c.identity files ∷ [])
  failed :
      (t : Targeted) (w : List RankedCandidate) (c : Candidate) (b : Bool)
      (reason : TryFailureReason) (files : List DownloadedFile)
      → Move js
          (downloading t w c b)
          (reject_and_advance t w c (try_failed c.identity reason) files)
  settled_late :
      (p : Progress) (c : Candidate) (files : List DownloadedFile)
      → Move js (cancelled p (in_flight c)) (candidate_rejected c.identity (some files) ∷ [])
  passed :
      (t : Targeted) (w : List RankedCandidate) (c : Candidate) (files : List DownloadedFile)
      (verdict : ValidationVerdict)
      → Move js (validating t w c files) (validation_passed c.identity verdict ∷ [])
  refused :
      (t : Targeted) (w : List RankedCandidate) (c : Candidate) (files : List DownloadedFile)
      (verdict : ValidationVerdict)
      → Move js
          (validating t w c files)
          (reject_and_advance t w c (validation_failed c.identity verdict) files)
  delivered :
      (t : Targeted) (w : List RankedCandidate) (c : Candidate) (files : List DownloadedFile)
      (location : String)
      → Move js (importing t w c files) (
          imported c.identity location (some files)
          ∷ download_fulfilled location (some c.identity)
          ∷ [])
  occupied :
      (t : Targeted) (w : List RankedCandidate) (c : Candidate) (files : List DownloadedFile)
      (location : String)
      → Move js (importing t w c files) (import_conflicted location (some files) ∷ [])
  revived :
      (p : Progress) (location : String) (resume : FulfilledResume) (reasons : List String)
      → Move js (fulfilled p location (some resume)) (
          reject_and_advance
            (resumed p resume)
            resume.working
            resume.candidate
            (fulfillment_rejected resume.candidate.identity reasons)
            [])
  called_off :
      (s : DownloadState)
      → is_terminal s ≡ false
      → Move js s (download_cancelled (some (staged_files_of s)) ∷ [])

-- What a cancellation retains of the transfer.
abbrev pub staging_of : DownloadState → CancelledStaging
staging_of (validating t w c fs) = settled c
staging_of (importing t w c fs) = settled c
staging_of (downloading t w c b) = in_flight c
staging_of _ = nothing_staged

pub evolve-cancelled :
    (s : DownloadState) (files : Option (List DownloadedFile))
    → is_terminal s ≡ false
    → evolve s (download_cancelled files) ≡ cancelled (progress_of s) (staging_of s)
unfolding evolve
evolve-cancelled empty files h = refl
evolve-cancelled (pending r) files h = refl
evolve-cancelled (awaiting_manual_selection r cs) files h = refl
evolve-cancelled (searching t) files h = refl
evolve-cancelled (selecting t w) files h = refl
evolve-cancelled (downloading t w c b) files h = refl
evolve-cancelled (validating t w c fs) files h = refl
evolve-cancelled (importing t w c fs) files h = refl
evolve-cancelled _ files h = cc

-- A decision refuses the command, absorbs it, or makes a move.
pub data Decided (js : Runtime) (s : DownloadState) : Decision → Type 0 where
  refusal : (e : DomainError) → Decided js s (err e)
  absorbed : Decided js s (ok [])
  moved : {events : List DownloadEvent} → Move js s events → Decided js s (ok events)

unless_terminal-Decided :
    (js : Runtime) (s : DownloadState) (command : DownloadCommandType)
    → Decided js s (unless_terminal command s)
unless_terminal-Decided js s command = elim (Bool-cases (is_terminal s)) [
  | inl done ↦ rw done absorbed
  | inr live ↦ rw live (refusal _)
]

-- Every admissible command, in every state, is refused, absorbed, or answered with the events of one
-- move of the step relation `Move`.
pub decide-Decided :
    (js : Runtime) (command : DownloadCommand) (s : DownloadState)
    → IsAdmissible command
    → Decided js s (decide js command s)
unfolding decide
decide-Decided js (submit_download request policies) empty valid =
    moved (submitted request policies valid)
decide-Decided js (record_target target) (pending r) valid = moved (resolved r target)
decide-Decided js record_metadata_failed (pending r) valid = moved (unresolved r)
decide-Decided js (record_manual_selection_requested candidates) (pending r) valid =
    elim (Bool-cases (is_release_group r.request)) [
      | inl group ↦ elim (Bool-cases (is_empty candidates)) [
        | inl none_offered ↦ rw (group, none_offered) (moved (unresolved r))
        | inr offered ↦ rw (group, offered) (moved (paused r candidates group offered))
      ]
      | inr other ↦ rw other (moved (unresolved r))
    ]
decide-Decided js (select_edition mbid) (awaiting_manual_selection r candidates) valid =
    elim (Bool-cases (all (λ c. not (str_eq c.release_mbid mbid)) candidates)) [
      | inl unknown ↦ rw unknown (refusal _)
      | inr known ↦ rw known (moved (chosen r candidates mbid known))
    ]
decide-Decided js (record_search_results candidates) (searching t) valid =
    moved (searched t candidates)
decide-Decided js (record_try_started named) (validating t w c files) valid =
    elim (Bool-cases (is_naming named c.identity)) [
      | inl same ↦ rw same absorbed
      | inr other ↦ rw other (refusal _)
    ]
decide-Decided js (record_try_started named) (importing t w c files) valid =
    elim (Bool-cases (is_naming named c.identity)) [
      | inl same ↦ rw same absorbed
      | inr other ↦ rw other (refusal _)
    ]
decide-Decided js (record_try_started named) (downloading t w c true) valid =
    elim (Bool-cases (is_naming named c.identity)) [
      | inl same ↦ rw same absorbed
      | inr other ↦ rw other absorbed
    ]
decide-Decided js (record_try_started named) (downloading t w c false) valid =
    elim (Bool-cases (is_naming named c.identity)) [
      | inl same ↦ rw same (moved (started t w c))
      | inr other ↦ rw other absorbed
    ]
decide-Decided js (record_try_completed files named) (cancelled p (in_flight c)) valid =
    elim (Bool-cases (is_naming named c.identity)) [
      | inl same ↦ rw same (moved (settled_late p c files))
      | inr other ↦ rw other absorbed
    ]
decide-Decided js (record_try_completed files named) (downloading t w c b) valid =
    elim (Bool-cases (is_naming named c.identity)) [
      | inl same ↦ rw same (moved (completed t w c b files))
      | inr other ↦ rw other absorbed
    ]
decide-Decided js (record_try_failed reason files named) (cancelled p (in_flight c)) valid =
    elim (Bool-cases (is_naming named c.identity)) [
      | inl same ↦ rw same (moved (settled_late p c (get_or files [])))
      | inr other ↦ rw other absorbed
    ]
decide-Decided js (record_try_failed reason files named) (downloading t w c b) valid =
    elim (Bool-cases (is_naming named c.identity)) [
      | inl same ↦ rw same (moved (failed t w c b reason (get_or files [])))
      | inr other ↦ rw other absorbed
    ]
decide-Decided js (record_validation_passed verdict) (validating t w c files) valid =
    moved (passed t w c files verdict)
decide-Decided js (record_validation_failed verdict) (validating t w c files) valid =
    moved (refused t w c files verdict)
decide-Decided js (record_imported location) (importing t w c files) valid =
    moved (delivered t w c files location)
decide-Decided js (record_import_conflict location) (importing t w c files) valid =
    moved (occupied t w c files location)
decide-Decided js (record_external_validation_failed reference reasons)
      (fulfilled p l (some resume)) valid =
    elim (Bool-cases (is_referring_to reference resume.candidate.identity)) [
      | inl same ↦ rw same (moved (revived p l resume reasons))
      | inr other ↦ rw other absorbed
    ]
decide-Decided js (record_external_validation_failed reference reasons) s valid = absorbed
decide-Decided js cancel_download s valid = elim (Bool-cases (is_terminal s)) [
  | inl done ↦ rw done absorbed
  | inr live ↦ rw live (moved (called_off s live))
]
decide-Decided js (submit_download request policies) s valid = refusal _
decide-Decided js (select_edition mbid) s valid = refusal _
decide-Decided js (record_target target) s valid = unless_terminal-Decided js s type_record_target
decide-Decided js record_metadata_failed s valid =
    unless_terminal-Decided js s type_record_metadata_failed
decide-Decided js (record_manual_selection_requested candidates) s valid =
    unless_terminal-Decided js s type_record_manual_selection_requested
decide-Decided js (record_search_results candidates) s valid =
    unless_terminal-Decided js s type_record_search_results
decide-Decided js (record_try_started named) s valid =
    unless_terminal-Decided js s type_record_try_started
decide-Decided js (record_try_completed files named) s valid =
    unless_terminal-Decided js s type_record_try_completed
decide-Decided js (record_try_failed reason files named) s valid =
    unless_terminal-Decided js s type_record_try_failed
decide-Decided js (record_validation_passed verdict) s valid =
    unless_terminal-Decided js s type_record_validation_passed
decide-Decided js (record_validation_failed verdict) s valid =
    unless_terminal-Decided js s type_record_validation_failed
decide-Decided js (record_imported location) s valid =
    unless_terminal-Decided js s type_record_imported
decide-Decided js (record_import_conflict location) s valid =
    unless_terminal-Decided js s type_record_import_conflict
