-- ===== src/Downloader/Download/Invariant.antt =====
-- What holds of a download in every phase, and that every command keeps it.
use music_downloader.Prelude.{
  ℕ, ◌+◌, ◌≤◌, ◌<◌, ◌≡◌, refl, true, false, none, some, List, [], ◌∷◌, ◌++◌, leb, ltb, arith, All,
  length, length-append, is_empty, Bool-cases, inl, inr,
}
use music_downloader.Downloader.Runtime.{Runtime}
use music_downloader.Downloader.Candidate.{Candidate}
use music_downloader.Downloader.Ranking.{RankedCandidate}
use music_downloader.Downloader.Download.Events.{DownloadEvent}
use music_downloader.Downloader.Download.Commands.{DownloadCommand}
use music_downloader.Downloader.Download.State.{
  Progress, Targeted, nothing_staged, settled, in_flight, DownloadState, empty, pending,
  awaiting_manual_selection, searching, selecting, downloading, validating, importing, fulfilled,
  exhausted, cancelled, metadata_failed, conflicted, no_progress, is_terminal, progress_of,
  with_progress, evolve, fold_from,
}
use music_downloader.Downloader.Download.Decide.{
  select_next, ladder_of, is_release_group, usable_candidates, decide_search_results,
  reject_and_advance,
}
use music_downloader.Downloader.Download.Runs.{run}
use music_downloader.Downloader.Download.Moves.{
  IsValidRetry, IsAdmissible, resumed, Move, submitted, resolved, unresolved, paused, chosen,
  searched, completed, failed, settled_late, passed, refused, delivered, occupied, revived,
  called_off, evolve-cancelled, staging_of,
}
use music_downloader.Downloader.Download.History.{run_induction}
use music_downloader.Downloader.Download.Untried.{
  key_of, NotIn, AllUntried, usable_candidates-untried, rank_candidates-untried, remove_key-untried,
}

-- The budgets are kept, and each attempt but `open` ones has ended in a rejection.
pub record IsWithinBudget (t : Targeted) (open_attempts : ℕ) : Type 0 where
  pub valid : IsValidRetry t.policies
  pub rounds : t.search_rounds ≤ t.policies.retry.max_search_rounds
  pub attempts : t.attempts ≤ t.policies.retry.max_total_attempts
  pub counted : t.attempts ≡ length t.rejected + open_attempts

-- One candidate is in hand: neither it nor what is left to try was rejected, and it is not left to
-- try itself.
pub record HasCurrent (t : Targeted) (working : List RankedCandidate) (current : Candidate)
    : Type 0 where
  pub budget : IsWithinBudget t 1
  pub fresh : NotIn (key_of current) t.rejected
  pub untried : AllUntried (t.rejected ++ key_of current ∷ []) working

-- One attempt has not ended in a rejection, and its candidate was not rejected.
pub record HasOpen (p : Progress) (candidate : Candidate) : Type 0 where
  pub counted : p.attempts ≡ length p.rejected + 1
  pub fresh : NotIn (key_of candidate) p.rejected

abbrev pub Inv : DownloadState → Type 0
Inv empty = Unit
Inv (pending r) = (r.progress ≡ no_progress) × IsValidRetry r.policies
Inv (awaiting_manual_selection r candidates) =
    (r.progress ≡ no_progress)
    × IsValidRetry r.policies
    × (is_release_group r.request ≡ true)
    × (is_empty candidates ≡ false)
Inv (searching t) =
    IsWithinBudget t 0
    × (t.search_rounds < t.policies.retry.max_search_rounds)
    × (t.attempts < t.policies.retry.max_total_attempts)
Inv (selecting t w) = ⊥
Inv (downloading t w c started) = HasCurrent t w c
Inv (validating t w c files) = HasCurrent t w c
Inv (importing t w c files) = HasCurrent t w c
Inv (fulfilled p l none) = ⊥
Inv (fulfilled p l (some resume)) = HasCurrent (resumed p resume) resume.working resume.candidate
Inv (exhausted p) = p.attempts ≡ length p.rejected
Inv (cancelled p nothing_staged) =
    (length p.rejected ≤ p.attempts) × (p.attempts ≤ length p.rejected + 1)
Inv (cancelled p (settled c)) = HasOpen p c
Inv (cancelled p (in_flight c)) = HasOpen p c
Inv (metadata_failed r) = (r.progress ≡ no_progress) × IsValidRetry r.policies
Inv (conflicted p l c) = HasOpen p c

HasCurrent-HasOpen :
    {t : Targeted} {w : List RankedCandidate} {c : Candidate}
    → HasCurrent t w c
    → HasOpen t.progress c
HasCurrent-HasOpen h = record { counted = h.budget.counted; fresh = h.fresh }

-- The next move of the ladder leads to a phase in which it waits.
select_next-Inv :
    (t : Targeted) (w : List RankedCandidate)
    → IsWithinBudget t 0
    → AllUntried t.rejected w
    → Inv (evolve (selecting t w) (select_next (ladder_of t w)))
unfolding select_next evolve
select_next-Inv t [] b u = elim (Bool-cases (leb t.policies.retry.max_total_attempts t.attempts)) [
  | inl spent ↦ rw spent (omega (arith, b.counted))
  | inr left ↦ elim (Bool-cases (ltb t.search_rounds t.policies.retry.max_search_rounds)) [
    | inl again ↦ rw (left, again) (b, lower _ _ again, unspent _ _ left)
    | inr no_round ↦ rw (left, no_round) (omega (arith, b.counted))
  ]
]
  where
    lower : (a n : ℕ) → ltb a n ≡ true → a < n
    lower a n e = ground arith

    unspent : (n a : ℕ) → leb n a ≡ false → a < n
    unspent n a e = ground arith
select_next-Inv t (r ∷ w) b u =
    elim (Bool-cases (leb t.policies.retry.max_total_attempts t.attempts)) [
      | inl spent ↦ rw spent (omega (arith, b.counted))
      | inr left ↦ rw left (record {
        budget = record {
          valid = b.valid;
          rounds = b.rounds;
          attempts = ground arith;
          counted = ground arith;
        };
        fresh = u.0;
        untried = remove_key-untried (key_of r.candidate) t.rejected (r ∷ w) u;
      })
    ]

-- One more round counted.
abbrev pub next_round : Targeted → Targeted
next_round t = with_progress t (record t.progress { search_rounds = t.search_rounds + 1 })

-- The current candidate's key among the rejected ones.
abbrev pub rejecting : Targeted → Candidate → Targeted
rejecting t c = with_progress t (record t.progress { rejected = t.rejected ++ key_of c ∷ [] })

pub next_round-IsWithinBudget : (t : Targeted) → Inv (searching t) → IsWithinBudget (next_round t) 0
next_round-IsWithinBudget t (b, more_rounds, more_attempts) = record {
  valid = b.valid;
  rounds = omega arith;
  attempts = b.attempts;
  counted = b.counted;
}

search_results-Inv :
    (js : Runtime) (t : Targeted) (candidates : List Candidate)
    → Inv (searching t)
    → Inv (fold_from (searching t) (decide_search_results js t candidates))
unfolding decide_search_results evolve fold_from
search_results-Inv js t candidates (b, more_rounds, more_attempts) =
    select_next-Inv (next_round t) _
      (record { valid = b.valid; rounds = omega arith; attempts = b.attempts; counted = b.counted })
      (rank_candidates-untried js (usable_candidates candidates t.rejected) t.target
        t.policies.quality t.policies.matching t.rejected
        (usable_candidates-untried candidates t.rejected))

pub rejecting-IsWithinBudget :
    (t : Targeted) (c : Candidate) → IsWithinBudget t 1 → IsWithinBudget (rejecting t c) 0
rejecting-IsWithinBudget t c b = record {
  valid = b.valid;
  rounds = b.rounds;
  attempts = b.attempts;
  counted = omega (arith, length-append t.rejected (key_of c ∷ []));
}

-- The ladder moves on once the candidate in hand is rejected.
advance-Inv :
    (t : Targeted) (w : List RankedCandidate) (c : Candidate)
    → HasCurrent t w c
    → Inv (evolve (selecting (rejecting t c) w) (select_next (ladder_of t w)))
advance-Inv t w c h =
    select_next-Inv (rejecting t c) w (rejecting-IsWithinBudget t c h.budget) h.untried

-- A cancellation keeps the count of the attempts.
pub cancelled-Inv :
    (s : DownloadState)
    → is_terminal s ≡ false
    → Inv s
    → Inv (cancelled (progress_of s) (staging_of s))
cancelled-Inv empty live h = (omega arith, omega arith)
cancelled-Inv (pending r) live h = rw h.0 (omega arith, omega arith)
cancelled-Inv (awaiting_manual_selection r cs) live h = rw h.0 (omega arith, omega arith)
cancelled-Inv (searching t) live h = (omega (arith, h.0.counted), omega (arith, h.0.counted))
cancelled-Inv (selecting t w) live h = absurd h
cancelled-Inv (downloading t w c b) live h = HasCurrent-HasOpen h
cancelled-Inv (validating t w c fs) live h = HasCurrent-HasOpen h
cancelled-Inv (importing t w c fs) live h = HasCurrent-HasOpen h
cancelled-Inv _ live h = cc

-- Every move keeps the invariant.
pub Move-Inv :
    (js : Runtime) {s : DownloadState} {events : List DownloadEvent}
    → Move js s events
    → Inv s
    → Inv (fold_from s events)
unfolding evolve fold_from reject_and_advance
Move-Inv js (submitted request policies valid) h = (refl, valid)
Move-Inv js (resolved r target) (start, valid) = ground arith
Move-Inv js (unresolved r) h = h
Move-Inv js (paused r candidates group offered) (start, valid) = (start, valid, group, offered)
Move-Inv js (chosen r candidates release_mbid known) (start, valid, _, _) = (start, valid)
Move-Inv js (searched t candidates) h = search_results-Inv js t candidates h
Move-Inv js (Move.started t w c) h = h
Move-Inv js (completed t w c b files) h = h
Move-Inv js (failed t w c b reason files) h = advance-Inv t w c h
Move-Inv js (settled_late p c files) h = (omega (arith, h.counted), omega (arith, h.counted))
Move-Inv js (passed t w c files verdict) h = h
Move-Inv js (refused t w c files verdict) h = advance-Inv t w c h
Move-Inv js (delivered t w c files location) h = h
Move-Inv js (occupied t w c files location) h = HasCurrent-HasOpen h
Move-Inv js (revived p location resume reasons) h =
    advance-Inv (resumed p resume) resume.working resume.candidate h
Move-Inv js (called_off s live) h = rw (evolve-cancelled s _ live) (cancelled-Inv s live h)

-- After any admissible commands the state satisfies the invariant. Where the state holds its policies
-- and goes on, or can be resumed, both budgets are kept, each attempt but the one in hand has ended in
-- a rejection, and neither the candidate in hand nor what is left to try was rejected. An exhausted
-- download has rejected each attempt; one that ended in a conflict, or was cancelled with a candidate,
-- has rejected each but the one of that candidate, which it has not rejected; and one cancelled
-- without has rejected each, or each but one. One whose metadata failed has attempted nothing.
pub run-Inv :
    (js : Runtime) (commands : List DownloadCommand)
    → All IsAdmissible commands
    → Inv (run js commands)
run-Inv js commands valid =
    run_induction js (λ events s. Inv s) tt (λ events s new h m. Move-Inv js m h) commands valid
