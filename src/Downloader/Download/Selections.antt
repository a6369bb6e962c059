-- ===== src/Downloader/Download/Selections.antt =====
-- The candidates that a history selects: no key twice, and as many as attempts are counted.
use music_downloader.Prelude.{
  ◌+◌, ◌≡◌, ◌≢◌, refl, sym, ap, false, none, some, List, [], ◌∷◌, ◌++◌, String, leb, ltb, arith,
  All, length, length-append, Bool-cases, inl, inr, subst,
}
use mathlib.Core.List.{append-nil}
use music_downloader.Downloader.Runtime.{Runtime}
use music_downloader.Downloader.Candidate.{Candidate}
use music_downloader.Downloader.Ranking.{RankedCandidate}
use music_downloader.Downloader.Download.Events.{DownloadEvent, candidate_selected}
use music_downloader.Downloader.Download.Commands.{DownloadCommand}
use music_downloader.Downloader.Download.State.{
  Targeted, DownloadState, searching, selecting, downloading, validating, importing, fulfilled,
  exhausted, cancelled, metadata_failed, conflicted, progress_of, evolve, fold_from,
}
use music_downloader.Downloader.Download.Decide.{
  select_next, ladder_of, decide_search_results, reject_and_advance,
}
use music_downloader.Downloader.Download.Runs.{run}
use music_downloader.Downloader.Download.Moves.{
  IsAdmissible, resumed, Move, submitted, resolved, unresolved, paused, chosen, searched, completed,
  failed, settled_late, passed, refused, delivered, occupied, revived, called_off, evolve-cancelled,
}
use music_downloader.Downloader.Download.History.{history, run_induction}
use music_downloader.Downloader.Download.Untried.{key_of, NotIn}
use music_downloader.Downloader.Download.Invariant.{
  Inv, HasCurrent, next_round, rejecting, cancelled-Inv, Move-Inv,
}

abbrev pub selected_keys : List DownloadEvent → List String
selected_keys [] = []
selected_keys (candidate_selected c ∷ events) = key_of c ∷ selected_keys events
selected_keys (_ ∷ events) = selected_keys events

-- No text twice.
abbrev pub Distinct : List String → Type 0
Distinct [] = Unit
Distinct (k ∷ ks) = NotIn k ks × Distinct ks

selected_keys-append :
    (xs ys : List DownloadEvent) → selected_keys (xs ++ ys) ≡ selected_keys xs ++ selected_keys ys
selected_keys-append [] ys = refl
selected_keys-append (candidate_selected c ∷ xs) ys =
    ap (λ ks. key_of c ∷ ks) (selected_keys-append xs ys)
selected_keys-append (_ ∷ xs) ys = selected_keys-append xs ys

NotIn-snoc : (k key : String) (ks : List String) → key ≢ k → NotIn k ks → NotIn k (ks ++ key ∷ [])
NotIn-snoc k key [] ne h = (ne, tt)
NotIn-snoc k key (j ∷ ks) ne h = (h.0, NotIn-snoc k key ks ne h.1)

Distinct-snoc :
    (key : String) (ks : List String) → NotIn key ks → Distinct ks → Distinct (ks ++ key ∷ [])
Distinct-snoc key [] new d = (tt, tt)
Distinct-snoc key (k ∷ ks) new d =
    (NotIn-snoc k key ks (λ e. new.0 (sym e)) d.0, Distinct-snoc key ks new.1 d.1)

-- How the selected keys stand to the rejected ones in a phase.
abbrev Ledger : List String → DownloadState → Type 0
Ledger selected (downloading t w c b) = selected ≡ t.rejected ++ key_of c ∷ []
Ledger selected (validating t w c fs) = selected ≡ t.rejected ++ key_of c ∷ []
Ledger selected (importing t w c fs) = selected ≡ t.rejected ++ key_of c ∷ []
Ledger selected (fulfilled p l none) = Unit
Ledger selected (fulfilled p l (some resume)) =
    selected ≡ p.rejected ++ key_of resume.candidate ∷ []
Ledger selected (cancelled p s) = Unit
Ledger selected (metadata_failed r) = Unit
Ledger selected (conflicted p l c) = Unit
Ledger selected s = selected ≡ (progress_of s).rejected

record Tracks (selected : List String) (s : DownloadState) : Type 0 where
  ledger : Ledger selected s
  distinct : Distinct selected
  counted : (progress_of s).attempts ≡ length selected
  inv : Inv s

unchanged :
    (selected : List String) (s : DownloadState)
    → Ledger selected s
    → Distinct selected
    → (progress_of s).attempts ≡ length selected
    → Inv s
    → Tracks (selected ++ []) s
unchanged selected s l d n h =
    rw append-nil (record { ledger = l; distinct = d; counted = n; inv = h })

newly_selected :
    (t : Targeted) (w : List RankedCandidate) (c : Candidate) (selected : List String)
    → HasCurrent t w c
    → selected ≡ t.rejected
    → Distinct selected
    → t.attempts ≡ length selected + 1
    → Tracks (selected ++ key_of c ∷ []) (downloading t w c false)
newly_selected t w c selected h l d n = record {
  ledger = ap (λ ks. ks ++ key_of c ∷ []) l;
  distinct = Distinct-snoc (key_of c) selected (subst (NotIn (key_of c)) (sym l) h.fresh) d;
  counted = omega (arith, length-append selected (key_of c ∷ []));
  inv = h;
}

-- The next move of the ladder selects a key that was not selected, or none.
select_next-Tracks :
    (t : Targeted) (w : List RankedCandidate) (selected : List String)
    → selected ≡ t.rejected
    → Distinct selected
    → t.attempts ≡ length selected
    → Inv (evolve (selecting t w) (select_next (ladder_of t w)))
    → Tracks
        (selected ++ selected_keys (select_next (ladder_of t w) ∷ []))
        (evolve (selecting t w) (select_next (ladder_of t w)))
unfolding select_next evolve
select_next-Tracks t [] selected l d n h =
    elim (Bool-cases (leb t.policies.retry.max_total_attempts t.attempts)) [
      | inl spent ↦ rw spent (unchanged selected (exhausted t.progress) l d n (rw spent at h))
      | inr left ↦ elim (Bool-cases (ltb t.search_rounds t.policies.retry.max_search_rounds)) [
        | inl again ↦
            rw (left, again) (unchanged selected (searching t) l d n (rw (left, again) at h))
        | inr no_round ↦
            rw (left, no_round)
              (unchanged selected (exhausted t.progress) l d n (rw (left, no_round) at h))
      ]
    ]
select_next-Tracks t (r ∷ w) selected l d n h =
    elim (Bool-cases (leb t.policies.retry.max_total_attempts t.attempts)) [
      | inl spent ↦ rw spent (unchanged selected (exhausted t.progress) l d n (rw spent at h))
      | inr left ↦
          rw left (newly_selected _ _ r.candidate selected (rw left at h) l d (omega arith))
    ]

Move-Tracks :
    (js : Runtime) (selected : List String) {s : DownloadState} {events : List DownloadEvent}
    → Move js s events
    → Tracks selected s
    → Tracks (selected ++ selected_keys events) (fold_from s events)
unfolding evolve fold_from reject_and_advance decide_search_results
Move-Tracks js selected (submitted request policies valid) h =
    unchanged selected _ h.ledger h.distinct h.counted (refl, valid)
Move-Tracks js selected (resolved r target) h =
    unchanged selected _ h.ledger h.distinct h.counted (Move-Inv js (resolved r target) h.inv)
Move-Tracks js selected (unresolved r) h =
    unchanged selected _ tt h.distinct h.counted (Move-Inv js (unresolved r) h.inv)
Move-Tracks js selected (paused r candidates group offered) h =
    unchanged selected _ h.ledger h.distinct h.counted
      (Move-Inv js (paused r candidates group offered) h.inv)
Move-Tracks js selected (chosen r candidates release_mbid known) h =
    unchanged selected _ h.ledger h.distinct h.counted
      (Move-Inv js (chosen r candidates release_mbid known) h.inv)
Move-Tracks js selected (searched t candidates) h =
    select_next-Tracks (next_round t) _ selected h.ledger h.distinct h.counted
      (Move-Inv js (searched t candidates) h.inv)
Move-Tracks js selected (Move.started t w c) h =
    unchanged selected _ h.ledger h.distinct h.counted h.inv
Move-Tracks js selected (completed t w c b files) h =
    unchanged selected _ h.ledger h.distinct h.counted h.inv
Move-Tracks js selected (failed t w c b reason files) h =
    select_next-Tracks (rejecting t c) w selected h.ledger h.distinct h.counted
      (Move-Inv js (failed t w c b reason files) h.inv)
Move-Tracks js selected (settled_late p c files) h =
    unchanged selected _ tt h.distinct h.counted (Move-Inv js (settled_late p c files) h.inv)
Move-Tracks js selected (passed t w c files verdict) h =
    unchanged selected _ h.ledger h.distinct h.counted h.inv
Move-Tracks js selected (refused t w c files verdict) h =
    select_next-Tracks (rejecting t c) w selected h.ledger h.distinct h.counted
      (Move-Inv js (refused t w c files verdict) h.inv)
Move-Tracks js selected (delivered t w c files location) h =
    unchanged selected _ h.ledger h.distinct h.counted h.inv
Move-Tracks js selected (occupied t w c files location) h =
    unchanged selected _ tt h.distinct h.counted (Move-Inv js (occupied t w c files location) h.inv)
Move-Tracks js selected (revived p location resume reasons) h =
    select_next-Tracks (rejecting (resumed p resume) resume.candidate) resume.working selected
      h.ledger h.distinct h.counted (Move-Inv js (revived p location resume reasons) h.inv)
Move-Tracks js selected (called_off s live) h =
    rw (evolve-cancelled s _ live)
      (unchanged selected _ tt h.distinct h.counted (cancelled-Inv s live h.inv))

run-Tracks :
    (js : Runtime) (commands : List DownloadCommand)
    → All IsAdmissible commands
    → Tracks (selected_keys (history js commands)) (run js commands)
run-Tracks js =
    run_induction js (λ events s. Tracks (selected_keys events) s)
      (record { ledger = refl; distinct = tt; counted = refl; inv = tt })
      λ events s new h m.
        rw (selected_keys-append events new) (Move-Tracks js (selected_keys events) m h)

-- After any admissible commands, in any order, no two selections in the event history are of
-- candidates with the same key: a candidate that was tried is never tried again.
pub selections-Distinct :
    (js : Runtime) (commands : List DownloadCommand)
    → All IsAdmissible commands
    → Distinct (selected_keys (history js commands))
selections-Distinct js commands valid = (run-Tracks js commands valid).distinct

-- After any admissible commands the attempts that the state counts are the selections in the event
-- history.
pub attempts_are_selections :
    (js : Runtime) (commands : List DownloadCommand)
    → All IsAdmissible commands
    → (progress_of (run js commands)).attempts ≡ length (selected_keys (history js commands))
attempts_are_selections js commands valid = (run-Tracks js commands valid).counted
