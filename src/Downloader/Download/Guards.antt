-- ===== src/Downloader/Download/Guards.antt =====
-- When the ladder gives up, which reports are late, and what a dead end absorbs.
use music_downloader.Prelude.{
  ◌+◌, ◌≤◌, ◌<◌, ◌≡◌, refl, sym, ap, Bool, true, false, Option, none, some, List, [], ◌∷◌, leb, ltb,
  arith, ◌⊎◌, Bool-cases, inl, inr, ok, get_or,
}
use music_downloader.Downloader.Runtime.{Runtime}
use music_downloader.Downloader.Candidate.{Candidate, CandidateIdentity}
use music_downloader.Downloader.Ranking.{RankedCandidate}
use music_downloader.Downloader.Download.Events.{
  DownloadEvent, search_requested, candidate_selected, download_exhausted,
}
use music_downloader.Downloader.Download.Commands.{
  DownloadCommand, record_try_completed, record_try_failed, cancel_download,
}
use music_downloader.Downloader.Download.State.{
  Targeted, nothing_staged, settled, in_flight, DownloadState, downloading, fulfilled, exhausted,
  cancelled, metadata_failed, conflicted, fold_from,
}
use music_downloader.Downloader.Download.Decide.{
  Decision, decide, select_next, ladder_of, reject_and_advance, is_naming,
}
use music_downloader.Downloader.Download.Runs.{step}
use music_downloader.Downloader.Download.Runs.{run_from}

-- The three ways that the ladder goes on, each with its condition.
abbrev pub LadderCases : Targeted → List RankedCandidate → DownloadEvent → Type 0
LadderCases t w event =
    ((event ≡ download_exhausted)
      × ((t.policies.retry.max_total_attempts ≤ t.attempts)
          ⊎ ((w ≡ []) × (t.policies.retry.max_search_rounds ≤ t.search_rounds))))
    ⊎ ((r : RankedCandidate) × (v : List RankedCandidate) × (w ≡ r ∷ v)
        × (t.attempts < t.policies.retry.max_total_attempts)
        × (event ≡ candidate_selected r.candidate))
    ⊎ ((w ≡ [])
        × (t.attempts < t.policies.retry.max_total_attempts)
        × (t.search_rounds < t.policies.retry.max_search_rounds)
        × (event ≡ search_requested (t.search_rounds + 1)))

-- The ladder gives up when the attempts are spent, or nothing is left to try and the search rounds
-- are spent; else it tries the first candidate of the working set, and searches the next round when
-- that is empty.
pub select_next_cases :
    (t : Targeted) (w : List RankedCandidate) → LadderCases t w (select_next (ladder_of t w))
unfolding select_next
select_next_cases t [] = elim (Bool-cases (leb t.policies.retry.max_total_attempts t.attempts)) [
  | inl spent ↦ rw spent (inl (refl, inl (ground arith)))
  | inr left ↦ elim (Bool-cases (ltb t.search_rounds t.policies.retry.max_search_rounds)) [
    | inl again ↦ rw (left, again) (inr (inr (refl, ground arith, ground arith, refl)))
    | inr no_round ↦ rw (left, no_round) (inl (refl, inr (refl, ground arith)))
  ]
]
select_next_cases t (r ∷ w) =
    elim (Bool-cases (leb t.policies.retry.max_total_attempts t.attempts)) [
      | inl spent ↦ rw spent (inl (refl, inl (ground arith)))
      | inr left ↦ rw left (inr (inl (r, w, refl, ground arith, refl)))
    ]

-- The candidate in flight, also if the download was cancelled meanwhile.
abbrev pub in_flight_of : DownloadState → Option Candidate
in_flight_of (downloading t w c b) = some c
in_flight_of (cancelled p (in_flight c)) = some c
in_flight_of _ = none

-- A report on the outcome of a transfer, and the candidate that it names.
abbrev pub reports_on : DownloadCommand → Option CandidateIdentity
reports_on (record_try_completed files named) = some named
reports_on (record_try_failed reason files named) = some named
reports_on _ = none

-- The decision is not the empty batch.
abbrev pub TakesUp : Decision → Type 0
TakesUp (ok (e ∷ es)) = Unit
TakesUp _ = ⊥

by_name :
    (named m : CandidateIdentity) (c d : Candidate) (decision : Decision)
    → some m ≡ some named
    → some d ≡ some c
    → (is_naming m d.identity ≡ false → decision ≡ ok [])
    → (is_naming m d.identity ≡ true → TakesUp decision)
    → ((is_naming named c.identity ≡ false) × (decision ≡ ok []))
      ⊎ ((is_naming named c.identity ≡ true) × TakesUp decision)
by_name named m c d decision r f misnamed same =
    rw
      (
        sym (ap (λ (o : Option CandidateIdentity). get_or o m) r),
        sym (ap (λ (o : Option Candidate). get_or o d) f),
      )
      (elim (Bool-cases (is_naming m d.identity)) [
        | inl e ↦ inr (e, same e)
        | inr e ↦ inl (e, misnamed e)
      ])

-- While a candidate is in flight, or was when the download was cancelled, a report on a transfer is
-- absorbed if it names another candidate, and makes events if it names that one.
pub late_reports :
    (js : Runtime) (s : DownloadState) (command : DownloadCommand) (named : CandidateIdentity)
    (c : Candidate)
    → reports_on command ≡ some named
    → in_flight_of s ≡ some c
    → ((is_naming named c.identity ≡ false) × (decide js command s ≡ ok []))
      ⊎ ((is_naming named c.identity ≡ true) × TakesUp (decide js command s))
unfolding decide reject_and_advance
late_reports js (downloading t w d b) (record_try_completed files m) named c r f =
    by_name named m c d _ r f (λ e. rw e refl) (λ e. rw e tt)
late_reports js (downloading t w d b) (record_try_failed reason files m) named c r f =
    by_name named m c d _ r f (λ e. rw e refl) (λ e. rw e tt)
late_reports js (cancelled p (in_flight d)) (record_try_completed files m) named c r f =
    by_name named m c d _ r f (λ e. rw e refl) (λ e. rw e tt)
late_reports js (cancelled p (in_flight d)) (record_try_failed reason files m) named c r f =
    by_name named m c d _ r f (λ e. rw e refl) (λ e. rw e tt)
late_reports js s command named c r f = cc

-- No transfer is left to settle and nothing to resume.
abbrev pub is_dead_end : DownloadState → Bool
is_dead_end (fulfilled p l none) = true
is_dead_end (exhausted p) = true
is_dead_end (cancelled p nothing_staged) = true
is_dead_end (cancelled p (settled c)) = true
is_dead_end (metadata_failed r) = true
is_dead_end (conflicted p l c) = true
is_dead_end _ = false

step-dead_end :
    (js : Runtime) (s : DownloadState) (command : DownloadCommand)
    → is_dead_end s ≡ true
    → step js s command ≡ s
unfolding step decide fold_from
step-dead_end js (fulfilled p l none) cancel_download h = refl
step-dead_end js (exhausted p) cancel_download h = refl
step-dead_end js (cancelled p nothing_staged) cancel_download h = refl
step-dead_end js (cancelled p (settled c)) cancel_download h = refl
step-dead_end js (metadata_failed r) cancel_download h = refl
step-dead_end js (conflicted p l c) cancel_download h = refl
step-dead_end js (fulfilled p l none) _ h = refl
step-dead_end js (exhausted p) _ h = refl
step-dead_end js (cancelled p nothing_staged) _ h = refl
step-dead_end js (cancelled p (settled c)) _ h = refl
step-dead_end js (metadata_failed r) _ h = refl
step-dead_end js (conflicted p l c) _ h = refl
step-dead_end js _ _ h = cc

-- A terminal state in which no transfer is left to settle and no delivery to resume from stays as it
-- is, whichever commands follow.
pub dead_ends_absorb :
    (js : Runtime) (s : DownloadState) (commands : List DownloadCommand)
    → is_dead_end s ≡ true
    → run_from js s commands ≡ s
unfolding run_from
dead_ends_absorb js s [] h = refl
dead_ends_absorb js s (command ∷ commands) h =
    rw (step-dead_end js s command h) (dead_ends_absorb js s commands h)
