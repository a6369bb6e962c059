-- ===== src/Downloader/Download/Graph.antt =====
-- The phases of a download and the edges between them.
use music_downloader.Prelude.{
  ◌≡◌, ◌≢◌, refl, false, List, [], ◌∷◌, leb, ltb, ◌⊎◌, All, Bool-cases, inl, inr,
}
use music_downloader.Downloader.Runtime.{Runtime}
use music_downloader.Downloader.Ranking.{RankedCandidate}
use music_downloader.Downloader.Download.Events.{DownloadEvent}
use music_downloader.Downloader.Download.Commands.{DownloadCommand}
use music_downloader.Downloader.Download.State.{
  DownloadPhase, Targeted, DownloadState, empty, pending, awaiting_manual_selection, searching,
  selecting, downloading, validating, importing, phase_of, is_terminal, evolve, fold_from,
}
use music_downloader.Downloader.Download.Decide.{
  Decision, decide, select_next, ladder_of, decide_search_results, reject_and_advance,
}
use music_downloader.Downloader.Download.Runs.{step, run, after}
use music_downloader.Downloader.Download.Moves.{
  IsAdmissible, resumed, Decided, refusal, absorbed, moved, decide-Decided, Move, submitted,
  resolved, unresolved, paused, chosen, searched, completed, failed, settled_late, passed, refused,
  delivered, occupied, revived, called_off, evolve-cancelled,
}
use music_downloader.Downloader.Download.Invariant.{Inv, next_round, rejecting, run-Inv}
use music_downloader.Downloader.Download.State.{
  phase_empty, phase_pending, phase_awaiting_manual_selection, phase_searching, phase_selecting,
  phase_downloading, phase_validating, phase_importing, phase_fulfilled, phase_exhausted,
  phase_cancelled, phase_metadata_failed, phase_conflicted,
}

-- The phases that the ladder leads to.
pub data Rung : DownloadPhase → Type 0 where
  next_candidate : Rung phase_downloading
  next_search : Rung phase_searching
  gives_up : Rung phase_exhausted

-- The phases that a cancellation ends.
pub data Running : DownloadPhase → Type 0 where
  empty_runs : Running phase_empty
  pending_runs : Running phase_pending
  awaiting_runs : Running phase_awaiting_manual_selection
  searching_runs : Running phase_searching
  downloading_runs : Running phase_downloading
  validating_runs : Running phase_validating
  importing_runs : Running phase_importing

pub data Edge : DownloadPhase → DownloadPhase → Type 0 where
  submit : Edge phase_empty phase_pending
  resolve : Edge phase_pending phase_searching
  give_up_resolving : Edge phase_pending phase_metadata_failed
  pause : Edge phase_pending phase_awaiting_manual_selection
  resume_pending : Edge phase_awaiting_manual_selection phase_pending
  results : {p : DownloadPhase} → Rung p → Edge phase_searching p
  transferred : Edge phase_downloading phase_validating
  transfer_failed : {p : DownloadPhase} → Rung p → Edge phase_downloading p
  passes_validation : Edge phase_validating phase_importing
  fails_validation : {p : DownloadPhase} → Rung p → Edge phase_validating p
  deliver : Edge phase_importing phase_fulfilled
  conflict : Edge phase_importing phase_conflicted
  revive : {p : DownloadPhase} → Rung p → Edge phase_fulfilled p
  cancel : {p : DownloadPhase} → Running p → Edge p phase_cancelled

-- Two phases, the same or one edge apart.
abbrev pub Follows : DownloadPhase → DownloadPhase → Type 0
Follows p q = (q ≡ p) ⊎ Edge p q

select_next-Rung :
    (t : Targeted) (w : List RankedCandidate)
    → Rung (phase_of (evolve (selecting t w) (select_next (ladder_of t w))))
unfolding select_next evolve
select_next-Rung t [] = elim (Bool-cases (leb t.policies.retry.max_total_attempts t.attempts)) [
  | inl spent ↦ rw spent gives_up
  | inr left ↦ elim (Bool-cases (ltb t.search_rounds t.policies.retry.max_search_rounds)) [
    | inl again ↦ rw (left, again) next_search
    | inr no_round ↦ rw (left, no_round) gives_up
  ]
]
select_next-Rung t (r ∷ w) =
    elim (Bool-cases (leb t.policies.retry.max_total_attempts t.attempts)) [
      | inl spent ↦ rw spent gives_up
      | inr left ↦ rw left next_candidate
    ]

called_off-Running : (s : DownloadState) → is_terminal s ≡ false → Inv s → Running (phase_of s)
called_off-Running empty live h = empty_runs
called_off-Running (pending r) live h = pending_runs
called_off-Running (awaiting_manual_selection r cs) live h = awaiting_runs
called_off-Running (searching t) live h = searching_runs
called_off-Running (selecting t w) live h = absurd h
called_off-Running (downloading t w c b) live h = downloading_runs
called_off-Running (validating t w c fs) live h = validating_runs
called_off-Running (importing t w c fs) live h = importing_runs
called_off-Running _ live h = cc

Move-Follows :
    (js : Runtime) {s : DownloadState} {events : List DownloadEvent}
    → Move js s events
    → Inv s
    → Follows (phase_of s) (phase_of (fold_from s events))
unfolding evolve fold_from reject_and_advance decide_search_results
Move-Follows js (submitted request policies valid) h = inr submit
Move-Follows js (resolved r target) h = inr resolve
Move-Follows js (unresolved r) h = inr give_up_resolving
Move-Follows js (paused r candidates group offered) h = inr pause
Move-Follows js (chosen r candidates release_mbid known) h = inr resume_pending
Move-Follows js (searched t candidates) h = inr (results (select_next-Rung (next_round t) _))
Move-Follows js (Move.started t w c) h = inl refl
Move-Follows js (completed t w c b files) h = inr transferred
Move-Follows js (failed t w c b reason files) h =
    inr (transfer_failed (select_next-Rung (rejecting t c) w))
Move-Follows js (settled_late p c files) h = inl refl
Move-Follows js (passed t w c files verdict) h = inr passes_validation
Move-Follows js (refused t w c files verdict) h =
    inr (fails_validation (select_next-Rung (rejecting t c) w))
Move-Follows js (delivered t w c files location) h = inr deliver
Move-Follows js (occupied t w c files location) h = inr conflict
Move-Follows js (revived p location resume reasons) h =
    inr (revive (select_next-Rung (rejecting (resumed p resume) resume.candidate) resume.working))
Move-Follows js (called_off s live) h =
    rw (evolve-cancelled s _ live) (inr (cancel (called_off-Running s live h)))

Decided-Follows :
    (js : Runtime) (s : DownloadState) (d : Decision)
    → Decided js s d
    → Inv s
    → Follows (phase_of s) (phase_of (after s d))
unfolding fold_from
Decided-Follows js s _ (refusal e) h = inl refl
Decided-Follows js s _ absorbed h = inl refl
Decided-Follows js s _ (moved m) h = Move-Follows js m h

-- After any admissible commands, one more admissible command leaves the phase or takes it along one
-- edge of the phase diagram; no state rests in the phase `Selecting`.
pub step-Follows :
    (js : Runtime) (commands : List DownloadCommand) (command : DownloadCommand)
    → All IsAdmissible commands
    → IsAdmissible command
    → Follows (phase_of (run js commands)) (phase_of (step js (run js commands) command))
      × (phase_of (run js commands) ≢ phase_selecting)
unfolding step
step-Follows js commands command valid admissible = (
  Decided-Follows js (run js commands) (decide js command (run js commands))
      (decide-Decided js command (run js commands) admissible) (run-Inv js commands valid),
  rests (run js commands) (run-Inv js commands valid),
)
  where
    rests : (s : DownloadState) → Inv s → phase_of s ≢ phase_selecting
    rests (selecting t w) h = absurd h
    rests empty h = λ e. cc
    rests _ h = λ e. cc
