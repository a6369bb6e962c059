-- ===== src/Downloader/Download/Termination.antt =====
-- The retry ladder ends: once a target is known, every move takes the download strictly nearer to rest.
use music_downloader.Prelude.{
  ℕ, ◌+◌, ◌*◌, ◌-◌, ◌≤◌, ◌<◌, ◌≡◌, refl, Bool, true, false, none, some, List, [], ◌∷◌, arith, All,
  ok, err,
}
use music_downloader.Downloader.Runtime.{Runtime}
use music_downloader.Downloader.Policy.{DownloadPolicies}
use music_downloader.Downloader.Ranking.{RankedCandidate, rank_candidates}
use music_downloader.Downloader.Download.Events.{DownloadEvent}
use music_downloader.Downloader.Download.Commands.{DownloadCommand}
use music_downloader.Downloader.Download.State.{
  Progress, Targeted, in_flight, DownloadState, empty, pending, awaiting_manual_selection,
  searching, selecting, downloading, validating, importing, fulfilled, cancelled, is_terminal,
  progress_of, evolve, fold_from,
}
use music_downloader.Downloader.Download.Decide.{
  Decision, decide, select_next, ladder_of, decide_search_results, reject_and_advance,
  usable_candidates,
}
use music_downloader.Downloader.Download.Runs.{step, run, after}
use music_downloader.Downloader.Download.Moves.{
  IsAdmissible, resumed, Decided, refusal, absorbed, moved, decide-Decided, Move, searched,
  completed, failed, settled_late, passed, refused, delivered, occupied, revived, called_off,
  staging_of, evolve-cancelled,
}
use music_downloader.Downloader.Download.Invariant.{Inv, next_round, rejecting, Move-Inv, run-Inv}

-- The attempts and rounds that are left.
abbrev left : DownloadPolicies → Progress → ℕ
left q p = (q.retry.max_total_attempts - p.attempts) + (q.retry.max_search_rounds - p.search_rounds)

-- A bound for the moves that are still possible.
abbrev pub moves_left : DownloadState → ℕ
moves_left (searching t) = 8 * left t.policies t.progress + 1
moves_left (selecting t w) = 8 * left t.policies t.progress + 4
moves_left (downloading t w c false) = 8 * left t.policies t.progress + 6
moves_left (downloading t w c true) = 8 * left t.policies t.progress + 5
moves_left (validating t w c files) = 8 * left t.policies t.progress + 4
moves_left (importing t w c files) = 8 * left t.policies t.progress + 3
moves_left (fulfilled p l none) = 0
moves_left (fulfilled p l (some resume)) = 8 * left resume.policies p + 2
moves_left (cancelled p (in_flight c)) = 1
moves_left _ = 0

-- A download whose target was resolved, or that has ended.
abbrev pub is_past_resolution : DownloadState → Bool
is_past_resolution empty = false
is_past_resolution (pending r) = false
is_past_resolution (awaiting_manual_selection r cs) = false
is_past_resolution _ = true

-- From `selecting` the ladder moves to a phase with fewer moves left, when a round or an attempt
-- was just used up, or the last candidate was.
select_next-moves :
    (t : Targeted) (w : List RankedCandidate)
    → moves_left (evolve (selecting t w) (select_next (ladder_of t w)))
      ≤ 8 * left t.policies t.progress + 1
unfolding select_next evolve
select_next-moves t [] = ground arith
select_next-moves t (r ∷ w) = ground arith

called_off-moves :
    (s : DownloadState)
    → is_terminal s ≡ false
    → is_past_resolution s ≡ true
    → moves_left (cancelled (progress_of s) (staging_of s)) < moves_left s
called_off-moves (searching t) live past = omega arith
called_off-moves (selecting t w) live past = omega arith
called_off-moves (downloading t w c true) live past = omega arith
called_off-moves (downloading t w c false) live past = omega arith
called_off-moves (validating t w c files) live past = omega arith
called_off-moves (importing t w c files) live past = omega arith
called_off-moves _ live past = cc

Move-moves :
    (js : Runtime) {s : DownloadState} {events : List DownloadEvent}
    → Move js s events
    → Inv s
    → is_past_resolution s ≡ true
    → moves_left (fold_from s events) < moves_left s
unfolding evolve fold_from reject_and_advance decide_search_results
Move-moves js (searched t candidates) h past = omega (
  arith,
  select_next-moves (next_round t) (
      rank_candidates js (usable_candidates candidates t.rejected) t.target t.policies.quality
        t.policies.matching),
  h,
)
Move-moves js (Move.started t w c) h past = omega arith
Move-moves js (completed t w c true files) h past = omega arith
Move-moves js (completed t w c false files) h past = omega arith
Move-moves js (failed t w c true reason files) h past =
    omega (arith, select_next-moves (rejecting t c) w)
Move-moves js (failed t w c false reason files) h past =
    omega (arith, select_next-moves (rejecting t c) w)
Move-moves js (settled_late p c files) h past = omega arith
Move-moves js (passed t w c files verdict) h past = omega arith
Move-moves js (refused t w c files verdict) h past =
    omega (arith, select_next-moves (rejecting t c) w)
Move-moves js (delivered t w c files location) h past = omega arith
Move-moves js (occupied t w c files location) h past = omega arith
Move-moves js (revived p location resume reasons) h past =
    omega (arith, select_next-moves (rejecting (resumed p resume) resume.candidate) resume.working)
Move-moves js (called_off s live) h past =
    rw (evolve-cancelled s _ live) (called_off-moves s live past)
Move-moves js _ h past = cc

select_next-past :
    (t : Targeted) (w : List RankedCandidate)
    → is_past_resolution (evolve (selecting t w) (select_next (ladder_of t w))) ≡ true
unfolding select_next evolve
select_next-past t [] = ground arith
select_next-past t (r ∷ w) = ground arith

Move-past :
    (js : Runtime) {s : DownloadState} {events : List DownloadEvent}
    → Move js s events
    → is_past_resolution s ≡ true
    → is_past_resolution (fold_from s events) ≡ true
unfolding evolve fold_from reject_and_advance decide_search_results
Move-past js (searched t candidates) past = select_next-past (next_round t) _
Move-past js (failed t w c b reason files) past = select_next-past (rejecting t c) w
Move-past js (refused t w c files verdict) past = select_next-past (rejecting t c) w
Move-past js (revived p location resume reasons) past =
    select_next-past (rejecting (resumed p resume) resume.candidate) resume.working
Move-past js (called_off s live) past = rw (evolve-cancelled s _ live)
Move-past js (Move.started t w c) past = refl
Move-past js (completed t w c b files) past = refl
Move-past js (settled_late p c files) past = refl
Move-past js (passed t w c files verdict) past = refl
Move-past js (delivered t w c files location) past = refl
Move-past js (occupied t w c files location) past = refl
Move-past js _ past = cc

-- 1 for a decision that appends events.
abbrev pub appends : Decision → ℕ
appends (ok []) = 0
appends (ok (e ∷ es)) = 1
appends (err e) = 0

-- How many of the commands append events.
unfoldable pub count_effective : Runtime → DownloadState → List DownloadCommand → ℕ
count_effective js s [] = 0
count_effective js s (c ∷ cs) = appends (decide js c s) + count_effective js (step js s c) cs

appends-le : (events : List DownloadEvent) → appends (ok events) ≤ 1
appends-le [] = omega arith
appends-le (e ∷ es) = omega arith

record Descends (s : DownloadState) (d : Decision) : Type 0 where
  inv : Inv (after s d)
  past : is_past_resolution (after s d) ≡ true
  fewer : appends d + moves_left (after s d) ≤ moves_left s

Decided-Descends :
    (js : Runtime) (s : DownloadState) (d : Decision)
    → Decided js s d
    → Inv s
    → is_past_resolution s ≡ true
    → Descends s d
unfolding fold_from
Decided-Descends js s _ (refusal e) h past = record { inv = h; past = past; fewer = omega arith }
Decided-Descends js s _ absorbed h past = record { inv = h; past = past; fewer = omega arith }
Decided-Descends js s _ (moved {events = new} m) h past = record {
  inv = Move-Inv js m h;
  past = Move-past js m past;
  fewer = omega (arith, appends-le new, Move-moves js m h past);
}

effective_bounded :
    (js : Runtime) (s : DownloadState) (commands : List DownloadCommand)
    → Inv s
    → is_past_resolution s ≡ true
    → All IsAdmissible commands
    → count_effective js s commands ≤ moves_left s
unfolding count_effective step
effective_bounded js s [] h past valid = omega arith
effective_bounded js s (c ∷ cs) h past valid =
    let d = Decided-Descends js s (decide js c s) (decide-Decided js c s valid.0) h past in
    omega (arith, d.fewer, effective_bounded js (after s (decide js c s)) cs d.inv d.past valid.1)

-- Once a download that admissible commands led to is past resolution, at most `moves_left` of any
-- further admissible commands append events, however many are sent and in whatever order.
pub ladder_ends :
    (js : Runtime) (before later : List DownloadCommand)
    → All IsAdmissible before
    → All IsAdmissible later
    → is_past_resolution (run js before) ≡ true
    → count_effective js (run js before) later ≤ moves_left (run js before)
ladder_ends js before later valid_before valid_later past =
    effective_bounded js (run js before) later (run-Inv js before valid_before) past valid_later
