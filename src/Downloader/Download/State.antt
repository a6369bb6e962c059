-- ===== src/Downloader/Download/State.antt =====
-- packages/downloader/src/domain/download/state.ts
-- A constructor for each phase, with the fields that are valid in it.
use music_downloader.Prelude.{
  ℕ, ◌+◌, Bool, true, false, not, Option, none, some, List, [], ◌∷◌, ◌++◌, String, str_eq, filter,
}
use music_downloader.Downloader.Candidate.{Candidate, candidate_key}
use music_downloader.Downloader.Policy.{DownloadPolicies}
use music_downloader.Downloader.Ranking.{RankedCandidate}
use music_downloader.Downloader.Target.{Target}
use music_downloader.Downloader.Download.Events.{
  DownloadRequest, DownloadedFile, EditionCandidate, DownloadEvent, download_requested,
  target_resolved, metadata_resolution_failed, manual_selection_requested, edition_selected,
  search_requested, search_completed, candidates_ranked, candidate_selected, try_started,
  try_completed, candidate_rejected, validation_passed, download_fulfilled, fulfillment_rejected,
  download_exhausted, import_conflicted, download_cancelled,
}

pub data DownloadPhase : Type 0 where
  phase_empty phase_pending phase_awaiting_manual_selection phase_searching : DownloadPhase
  phase_selecting phase_downloading phase_validating phase_importing : DownloadPhase
  phase_fulfilled phase_exhausted phase_cancelled phase_metadata_failed phase_conflicted :
      DownloadPhase

-- `rejected` holds candidate keys.
pub record Progress : Type 0 where
  pub rejected : List String
  pub search_rounds : ℕ
  pub attempts : ℕ

pub record Requested : Type 0 where
  pub progress : Progress
  pub open progress use *
  pub request : DownloadRequest
  pub policies : DownloadPolicies

pub record Targeted : Type 0 where
  pub requested : Requested
  pub open requested use *
  pub target : Target

pub record FulfilledResume : Type 0 where
  pub request : DownloadRequest
  pub policies : DownloadPolicies
  pub target : Target
  pub working : List RankedCandidate
  pub candidate : Candidate

pub data CancelledStaging : Type 0 where
  nothing_staged : CancelledStaging
  settled in_flight : Candidate → CancelledStaging

pub data DownloadState : Type 0 where
  empty : DownloadState
  pending : Requested → DownloadState
  awaiting_manual_selection : Requested → List EditionCandidate → DownloadState
  searching : Targeted → DownloadState
  selecting : Targeted → (working : List RankedCandidate) → DownloadState
  downloading :
      Targeted
      → (working : List RankedCandidate) → (current : Candidate) → (started : Bool) → DownloadState
  validating :
      Targeted
      → (working : List RankedCandidate) → (current : Candidate) → List DownloadedFile
      → DownloadState
  importing :
      Targeted
      → (working : List RankedCandidate) → (current : Candidate) → List DownloadedFile
      → DownloadState
  fulfilled : Progress → (location : String) → Option FulfilledResume → DownloadState
  exhausted : Progress → DownloadState
  cancelled : Progress → CancelledStaging → DownloadState
  metadata_failed : Requested → DownloadState
  conflicted : Progress → (location : String) → (current : Candidate) → DownloadState

abbrev pub phase_of : DownloadState → DownloadPhase
phase_of empty = phase_empty
phase_of (pending r) = phase_pending
phase_of (awaiting_manual_selection r cs) = phase_awaiting_manual_selection
phase_of (searching t) = phase_searching
phase_of (selecting t w) = phase_selecting
phase_of (downloading t w c b) = phase_downloading
phase_of (validating t w c fs) = phase_validating
phase_of (importing t w c fs) = phase_importing
phase_of (fulfilled p l r) = phase_fulfilled
phase_of (exhausted p) = phase_exhausted
phase_of (cancelled p s) = phase_cancelled
phase_of (metadata_failed r) = phase_metadata_failed
phase_of (conflicted p l c) = phase_conflicted

abbrev pub is_terminal : DownloadState → Bool
is_terminal (fulfilled p l r) = true
is_terminal (exhausted p) = true
is_terminal (cancelled p s) = true
is_terminal (metadata_failed r) = true
is_terminal (conflicted p l c) = true
is_terminal _ = false

abbrev pub no_progress : Progress
no_progress = record { rejected = []; search_rounds = 0; attempts = 0 }

abbrev pub progress_of : DownloadState → Progress
progress_of empty = no_progress
progress_of (pending r) = r.progress
progress_of (awaiting_manual_selection r cs) = r.progress
progress_of (searching t) = t.progress
progress_of (selecting t w) = t.progress
progress_of (downloading t w c b) = t.progress
progress_of (validating t w c fs) = t.progress
progress_of (importing t w c fs) = t.progress
progress_of (fulfilled p l r) = p
progress_of (exhausted p) = p
progress_of (cancelled p s) = p
progress_of (metadata_failed r) = r.progress
progress_of (conflicted p l c) = p

-- The targeted state with other progress.
abbrev pub with_progress : Targeted → Progress → Targeted
with_progress t p = record t { requested = record t.requested { progress = p } }

-- The working set without the selected candidate, by key.
unfoldable pub remove_key : String → List RankedCandidate → List RankedCandidate
remove_key key = filter λ ranked. not (str_eq (candidate_key ranked.candidate.identity) key)

abbrev pub cancel : DownloadState → DownloadState
cancel (validating t w c fs) = cancelled t.progress (settled c)
cancel (importing t w c fs) = cancelled t.progress (settled c)
cancel (downloading t w c b) = cancelled t.progress (in_flight c)
cancel s = cancelled (progress_of s) nothing_staged

abbrev pub resume_of : Targeted → List RankedCandidate → Candidate → Option FulfilledResume
resume_of t w c = some (record {
  request = t.request;
  policies = t.policies;
  target = t.target;
  working = w;
  candidate = c;
})

-- A pair of state and event that no clause names leaves the state as it is.
unfoldable pub evolve : DownloadState → DownloadEvent → DownloadState
evolve empty (download_requested request policies) =
    pending (record { progress = no_progress; request = request; policies = policies })
evolve (pending r) (target_resolved target) = searching (record { requested = r; target = target })
evolve (pending r) metadata_resolution_failed = metadata_failed r
evolve (pending r) (manual_selection_requested candidates) = awaiting_manual_selection r candidates
evolve (awaiting_manual_selection r cs) (edition_selected release_mbid) = pending r
evolve (selecting t w) (search_requested round) = searching t
evolve (searching t) (search_completed round candidates) =
    searching (with_progress t (record t.progress { search_rounds = t.search_rounds + 1 }))
evolve (searching t) (candidates_ranked ranked) = selecting t ranked
evolve (selecting t w) (candidate_selected candidate) =
    downloading (with_progress t (record t.progress { attempts = t.attempts + 1 }))
      (remove_key (candidate_key candidate.identity) w) candidate false
evolve (downloading t w c b) (try_started candidate) = downloading t w c true
evolve (downloading t w c b) (try_completed candidate files) = validating t w c files
evolve (cancelled p (in_flight c)) (candidate_rejected candidate files) = cancelled p nothing_staged
evolve (downloading t w c b) (candidate_rejected candidate files) =
    selecting
      (with_progress t
        (record t.progress { rejected = t.rejected ++ candidate_key candidate ∷ [] }))
      w
evolve (validating t w c fs) (candidate_rejected candidate files) =
    selecting
      (with_progress t
        (record t.progress { rejected = t.rejected ++ candidate_key candidate ∷ [] }))
      w
evolve (validating t w c fs) (validation_passed candidate verdict) = importing t w c fs
evolve (importing t w c fs) (download_fulfilled location none) = fulfilled t.progress location none
evolve (importing t w c fs) (download_fulfilled location (some candidate)) =
    fulfilled t.progress location (resume_of t w c)
evolve (fulfilled p l (some resume)) (fulfillment_rejected candidate reasons) =
    validating
      (record {
        requested = record { progress = p; request = resume.request; policies = resume.policies };
        target = resume.target;
      })
      resume.working resume.candidate []
evolve (selecting t w) download_exhausted = exhausted t.progress
evolve (importing t w c fs) (import_conflicted location files) = conflicted t.progress location c
evolve (fulfilled p l r) (download_cancelled files) = fulfilled p l r
evolve (exhausted p) (download_cancelled files) = exhausted p
evolve (cancelled p s) (download_cancelled files) = cancelled p s
evolve (metadata_failed r) (download_cancelled files) = metadata_failed r
evolve (conflicted p l c) (download_cancelled files) = conflicted p l c
evolve s (download_cancelled files) = cancel s
evolve s _ = s

-- `foldEvents`, from any state.
unfoldable pub fold_from : DownloadState → List DownloadEvent → DownloadState
fold_from s [] = s
fold_from s (e ∷ es) = fold_from (evolve s e) es

unfoldable pub fold_events : List DownloadEvent → DownloadState
unfolding fold_from
fold_events events = fold_from empty events
