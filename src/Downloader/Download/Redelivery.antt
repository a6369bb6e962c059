-- ===== src/Downloader/Download/Redelivery.antt =====
-- A command that is delivered again changes nothing more.
use music_downloader.Prelude.{
  ◌≡◌, ◌≢◌, refl, Bool, true, false, not, Option, some, List, [], ◌∷◌, ◌++◌, String, leb, ltb,
  arith, All, is_empty, Bool-cases, inl, inr, str_eq, eq_iff, all,
}
use music_downloader.Downloader.Runtime.{Runtime}
use music_downloader.Downloader.Candidate.{
  Candidate, CandidateIdentity, CandidateReference, candidate_key, is_referring_to,
}
use music_downloader.Downloader.Ranking.{RankedCandidate}
use music_downloader.Downloader.Verdict.{ValidationVerdict}
use music_downloader.Downloader.Download.Events.{TryFailureReason, DownloadedFile}
use music_downloader.Downloader.Download.Commands.{
  DownloadCommand, submit_download, record_target, record_metadata_failed,
  record_manual_selection_requested, select_edition, record_search_results, record_try_started,
  record_try_completed, record_try_failed, record_validation_passed, record_validation_failed,
  record_imported, record_import_conflict, record_external_validation_failed,
}
use music_downloader.Downloader.Download.State.{
  Progress, Targeted, in_flight, DownloadState, empty, pending, awaiting_manual_selection,
  searching, selecting, downloading, validating, importing, fulfilled, exhausted, cancelled, evolve,
  fold_from,
}
use music_downloader.Downloader.Download.Decide.{
  decide, select_next, ladder_of, is_release_group, reject_and_advance, is_naming,
}
use music_downloader.Downloader.Download.Runs.{step, run}
use music_downloader.Downloader.Download.Moves.{IsAdmissible, resumed}
use music_downloader.Downloader.Download.Untried.{key_of, NotIn, AllUntried}
use music_downloader.Downloader.Download.Invariant.{Inv, HasCurrent, rejecting, run-Inv}

abbrev pub is_search_results : DownloadCommand → Bool
is_search_results (record_search_results candidates) = true
is_search_results _ = false

-- What follows a rejection: the ladder searches, tries another candidate, or is exhausted.
NotIn-snoc_self :
    (key other : String) (ks : List String) → NotIn other (ks ++ key ∷ []) → key ≢ other
NotIn-snoc_self key other [] h = h.0
NotIn-snoc_self key other (k ∷ ks) h = NotIn-snoc_self key other ks h.1

module _ (js : Runtime) (t : Targeted) (w : List RankedCandidate) (command : DownloadCommand)
    (searching_keeps : (u : Targeted) → step js (searching u) command ≡ searching u)
    (exhausted_keeps : (p : Progress) → step js (exhausted p) command ≡ exhausted p)
    (downloading_keeps : (u : Targeted) (v : List RankedCandidate) (c : Candidate)
      → NotIn (key_of c) t.rejected
      → step js (downloading u v c false) command ≡ downloading u v c false) where
  advanced_keeps :
      AllUntried t.rejected w
      → let s = evolve (selecting t w) (select_next (ladder_of t w)) in step js s command ≡ s
  unfolding select_next evolve
  advanced_keeps u = go w u
    where
      go :
          (v : List RankedCandidate)
          → AllUntried t.rejected v
          → let s = evolve (selecting t v) (select_next (ladder_of t v)) in step js s command ≡ s
      go [] u = elim (Bool-cases (leb t.policies.retry.max_total_attempts t.attempts)) [
        | inl spent ↦ rw spent (exhausted_keeps t.progress)
        | inr left ↦ elim (Bool-cases (ltb t.search_rounds t.policies.retry.max_search_rounds)) [
          | inl again ↦ rw (left, again) (searching_keeps t)
          | inr no_round ↦ rw (left, no_round) (exhausted_keeps t.progress)
        ]
      ]
      go (r ∷ v) u = elim (Bool-cases (leb t.policies.retry.max_total_attempts t.attempts)) [
        | inl spent ↦ rw spent (exhausted_keeps t.progress)
        | inr left ↦ rw left (downloading_keeps _ _ r.candidate u.0)
      ]

-- A failed validation that was recorded is not recorded again.
refused_twice :
    (js : Runtime) (t : Targeted) (w : List RankedCandidate) (c : Candidate)
    (verdict : ValidationVerdict)
    → HasCurrent t w c
    → let s = evolve (selecting (rejecting t c) w) (select_next (ladder_of t w)) in
      step js s (record_validation_failed verdict) ≡ s
unfolding step decide fold_from
refused_twice js t w c verdict h =
    advanced_keeps js (rejecting t c) w (record_validation_failed verdict) (λ u. refl) (λ p. refl)
      (λ u v d new. refl) h.untried

-- Nor is a failed transfer: its candidate is not the one in hand any more.
failed_twice :
    (js : Runtime) (t : Targeted) (w : List RankedCandidate) (c : Candidate)
    (reason : TryFailureReason) (files : Option (List DownloadedFile)) (named : CandidateIdentity)
    → HasCurrent t w c
    → is_naming named c.identity ≡ true
    → let s = evolve (selecting (rejecting t c) w) (select_next (ladder_of t w)) in
      step js s (record_try_failed reason files named) ≡ s
unfolding step decide fold_from
failed_twice js t w c reason files named h same =
    advanced_keeps js (rejecting t c) w (record_try_failed reason files named) (λ u. refl)
      (λ p. refl)
      (λ u v d new. elim (Bool-cases (is_naming named d.identity)) [
        | inl again ↦ absurd (
            NotIn-snoc_self (key_of c) (key_of d) t.rejected new (
              ground (
                arith,
                eq_iff (candidate_key named) (key_of c),
                eq_iff (candidate_key named) (key_of d),
              )))
        | inr other ↦ rw other
      ])
      h.untried

revived_twice :
    (js : Runtime) (t : Targeted) (w : List RankedCandidate) (c : Candidate)
    (reference : CandidateReference) (reasons : List String)
    → HasCurrent t w c
    → let s = evolve (selecting (rejecting t c) w) (select_next (ladder_of t w)) in
      step js s (record_external_validation_failed reference reasons) ≡ s
unfolding step decide fold_from
revived_twice js t w c reference reasons h =
    advanced_keeps js (rejecting t c) w (record_external_validation_failed reference reasons)
      (λ u. refl) (λ p. refl) (λ u v d new. refl) h.untried

step_again :
    (js : Runtime) (s : DownloadState) (command : DownloadCommand)
    → Inv s
    → is_search_results command ≡ false
    → step js (step js s command) command ≡ step js s command
unfolding step decide evolve fold_from reject_and_advance
step_again js empty (submit_download request policies) h other = refl
step_again js (pending r) (record_target target) h other = refl
step_again js (pending r) record_metadata_failed h other = refl
step_again js (pending r) (record_manual_selection_requested candidates) h other =
    elim (Bool-cases (is_release_group r.request)) [
      | inl group ↦ elim (Bool-cases (is_empty candidates)) [
        | inl none_offered ↦ rw (group, none_offered) refl
        | inr offered ↦ rw (group, offered) refl
      ]
      | inr single ↦ rw single refl
    ]
step_again js (awaiting_manual_selection r candidates) (select_edition mbid) h other =
    elim (Bool-cases (all (λ c. not (str_eq c.release_mbid mbid)) candidates)) [
      | inl unknown ↦ rw (unknown, unknown) refl
      | inr known ↦ rw known refl
    ]
step_again js s (record_search_results candidates) h other = cc
step_again js (downloading t w c true) (record_try_started named) h other =
    elim (Bool-cases (is_naming named c.identity)) [
      | inl same ↦ rw (same, same) refl
      | inr late ↦ rw (late, late) refl
    ]
step_again js (downloading t w c false) (record_try_started named) h other =
    elim (Bool-cases (is_naming named c.identity)) [
      | inl same ↦ rw (same, same) refl
      | inr late ↦ rw (late, late) refl
    ]
step_again js (validating t w c files) (record_try_started named) h other =
    elim (Bool-cases (is_naming named c.identity)) [
      | inl same ↦ rw (same, same) refl
      | inr late ↦ rw (late, late) refl
    ]
step_again js (importing t w c files) (record_try_started named) h other =
    elim (Bool-cases (is_naming named c.identity)) [
      | inl same ↦ rw (same, same) refl
      | inr late ↦ rw (late, late) refl
    ]
step_again js (downloading t w c b) (record_try_completed files named) h other =
    elim (Bool-cases (is_naming named c.identity)) [
      | inl same ↦ rw same refl
      | inr late ↦ rw (late, late) refl
    ]
step_again js (downloading t w c b) (record_try_failed reason files named) h other =
    elim (Bool-cases (is_naming named c.identity)) [
      | inl same ↦ rw same (failed_twice js t w c reason files named h same)
      | inr late ↦ rw (late, late) refl
    ]
step_again js (cancelled p (in_flight c)) (record_try_completed files named) h other =
    elim (Bool-cases (is_naming named c.identity)) [
      | inl same ↦ rw same refl
      | inr late ↦ rw (late, late) refl
    ]
step_again js (cancelled p (in_flight c)) (record_try_failed reason files named) h other =
    elim (Bool-cases (is_naming named c.identity)) [
      | inl same ↦ rw same refl
      | inr late ↦ rw (late, late) refl
    ]
step_again js (validating t w c files) (record_validation_passed verdict) h other = refl
step_again js (validating t w c files) (record_validation_failed verdict) h other =
    refused_twice js t w c verdict h
step_again js (importing t w c files) (record_imported location) h other = refl
step_again js (importing t w c files) (record_import_conflict location) h other = refl
step_again js (fulfilled p l (some resume)) (record_external_validation_failed reference reasons) h
      other =
    elim (Bool-cases (is_referring_to reference resume.candidate.identity)) [
      | inl same ↦
          rw same (
            revived_twice js (resumed p resume) resume.working resume.candidate reference reasons h)
      | inr stale ↦ rw (stale, stale) refl
    ]
step_again js s command h other = refl

-- After any admissible commands, every command but a report of search results has the same effect
-- whether it is delivered once or twice: the second delivery leaves the state as it is.
pub redelivery_absorbed :
    (js : Runtime) (commands : List DownloadCommand) (command : DownloadCommand)
    → All IsAdmissible commands
    → is_search_results command ≡ false
    → step js (step js (run js commands) command) command ≡ step js (run js commands) command
redelivery_absorbed js commands command valid other =
    step_again js (run js commands) command (run-Inv js commands valid) other
