-- ===== src/Downloader/Download/Budget.antt =====
-- The budgets of the policies that a history opens with are kept in every phase, the terminal ones too.
use music_downloader.Prelude.{
  ℕ, ◌≤◌, ◌≡◌, refl, Option, none, some, List, [], ◌∷◌, ◌++◌, arith, All, subst,
}
use music_downloader.Downloader.Runtime.{Runtime}
use music_downloader.Downloader.Policy.{DownloadPolicies}
use music_downloader.Downloader.Ranking.{RankedCandidate}
use music_downloader.Downloader.Download.Events.{DownloadEvent, download_requested}
use music_downloader.Downloader.Download.Commands.{DownloadCommand}
use music_downloader.Downloader.Download.State.{
  Progress, Requested, Targeted, DownloadState, empty, pending, awaiting_manual_selection,
  searching, selecting, downloading, validating, importing, fulfilled, exhausted, cancelled,
  metadata_failed, conflicted, no_progress, progress_of, evolve, fold_from,
}
use music_downloader.Downloader.Download.Decide.{
  select_next, ladder_of, decide_search_results, reject_and_advance,
}
use music_downloader.Downloader.Download.Runs.{run}
use music_downloader.Downloader.Download.Moves.{
  IsAdmissible, resumed, Move, submitted, resolved, unresolved, paused, chosen, searched, completed,
  failed, settled_late, passed, refused, delivered, occupied, revived, called_off, evolve-cancelled,
}
use music_downloader.Downloader.Download.History.{history, run_induction}
use music_downloader.Downloader.Download.Invariant.{
  Inv, IsWithinBudget, next_round, rejecting, Move-Inv, next_round-IsWithinBudget,
  rejecting-IsWithinBudget,
}

-- The policies of the first request in a history.
abbrev pub requested_policies : List DownloadEvent → Option DownloadPolicies
requested_policies [] = none
requested_policies (download_requested request policies ∷ events) = some policies
requested_policies (_ ∷ events) = requested_policies events

abbrev or_first : Option DownloadPolicies → Option DownloadPolicies → Option DownloadPolicies
or_first none other = other
or_first (some q) other = some q

requested_policies-append :
    (xs ys : List DownloadEvent)
    → requested_policies (xs ++ ys) ≡ or_first (requested_policies xs) (requested_policies ys)
requested_policies-append [] ys = refl
requested_policies-append (download_requested request policies ∷ xs) ys = refl
requested_policies-append (_ ∷ xs) ys = requested_policies-append xs ys

pub record IsBounded (q : DownloadPolicies) (p : Progress) : Type 0 where
  pub attempts : p.attempts ≤ q.retry.max_total_attempts
  pub rounds : p.search_rounds ≤ q.retry.max_search_rounds

abbrev Governed : Option DownloadPolicies → DownloadState → Type 0
Governed none empty = Unit
Governed none (cancelled p s) = p ≡ no_progress
Governed none _ = ⊥
Governed (some q) empty = ⊥
Governed (some q) (pending r) = r.policies ≡ q
Governed (some q) (awaiting_manual_selection r cs) = r.policies ≡ q
Governed (some q) (searching t) = t.policies ≡ q
Governed (some q) (selecting t w) = t.policies ≡ q
Governed (some q) (downloading t w c b) = t.policies ≡ q
Governed (some q) (validating t w c fs) = t.policies ≡ q
Governed (some q) (importing t w c fs) = t.policies ≡ q
Governed (some q) (fulfilled p l none) = IsBounded q p
Governed (some q) (fulfilled p l (some resume)) = resume.policies ≡ q
Governed (some q) (exhausted p) = IsBounded q p
Governed (some q) (cancelled p s) = IsBounded q p
Governed (some q) (metadata_failed r) = IsBounded q r.progress
Governed (some q) (conflicted p l c) = IsBounded q p

targeted-IsBounded :
    (q : DownloadPolicies) (t : Targeted) {n : ℕ}
    → t.policies ≡ q
    → IsWithinBudget t n
    → IsBounded q t.progress
targeted-IsBounded q t e b = ground arith

requested-IsBounded :
    (q : DownloadPolicies) (r : Requested) → r.progress ≡ no_progress → IsBounded q r.progress
requested-IsBounded q r e = ground arith

-- In every phase the counts are within the budgets.
Governed-IsBounded :
    (q : DownloadPolicies) (s : DownloadState)
    → Inv s
    → Governed (some q) s
    → IsBounded q (progress_of s)
Governed-IsBounded q (pending r) h g = requested-IsBounded q r h.0
Governed-IsBounded q (awaiting_manual_selection r cs) h g = requested-IsBounded q r h.0
Governed-IsBounded q (searching t) h g = targeted-IsBounded q t g h.0
Governed-IsBounded q (downloading t w c b) h g = targeted-IsBounded q t g h.budget
Governed-IsBounded q (validating t w c fs) h g = targeted-IsBounded q t g h.budget
Governed-IsBounded q (importing t w c fs) h g = targeted-IsBounded q t g h.budget
Governed-IsBounded q (fulfilled p l (some resume)) h g =
    targeted-IsBounded q (resumed p resume) g h.budget
Governed-IsBounded q empty h g = absurd g
Governed-IsBounded q (selecting t w) h g = absurd h
Governed-IsBounded q (fulfilled p l none) h g = g
Governed-IsBounded q (exhausted p) h g = g
Governed-IsBounded q (cancelled p s) h g = g
Governed-IsBounded q (metadata_failed r) h g = g
Governed-IsBounded q (conflicted p l c) h g = g

select_next-Governed :
    (q : DownloadPolicies) (t : Targeted) (w : List RankedCandidate)
    → t.policies ≡ q
    → IsWithinBudget t 0
    → Governed (some q) (evolve (selecting t w) (select_next (ladder_of t w)))
unfolding select_next evolve
select_next-Governed q t [] e b = ground (arith, targeted-IsBounded q t e b)
select_next-Governed q t (r ∷ w) e b = ground (arith, targeted-IsBounded q t e b)

Move-Governed :
    (js : Runtime) (q : DownloadPolicies) {s : DownloadState} {events : List DownloadEvent}
    → Move js s events
    → Inv s
    → Governed (some q) s
    → Governed (some q) (fold_from s events)
unfolding evolve fold_from reject_and_advance decide_search_results
Move-Governed js q (submitted request policies valid) h g = absurd g
Move-Governed js q (resolved r target) h g = g
Move-Governed js q (unresolved r) h g = requested-IsBounded q r h.0
Move-Governed js q (paused r candidates group offered) h g = g
Move-Governed js q (chosen r candidates release_mbid known) h g = g
Move-Governed js q (searched t candidates) h g =
    select_next-Governed q (next_round t) _ g (next_round-IsWithinBudget t h)
Move-Governed js q (Move.started t w c) h g = g
Move-Governed js q (completed t w c b files) h g = g
Move-Governed js q (failed t w c b reason files) h g =
    select_next-Governed q (rejecting t c) w g (rejecting-IsWithinBudget t c h.budget)
Move-Governed js q (settled_late p c files) h g = g
Move-Governed js q (passed t w c files verdict) h g = g
Move-Governed js q (refused t w c files verdict) h g =
    select_next-Governed q (rejecting t c) w g (rejecting-IsWithinBudget t c h.budget)
Move-Governed js q (delivered t w c files location) h g = g
Move-Governed js q (occupied t w c files location) h g = targeted-IsBounded q t g h.budget
Move-Governed js q (revived p location resume reasons) h g =
    select_next-Governed q (rejecting (resumed p resume) resume.candidate) resume.working g
      (rejecting-IsWithinBudget (resumed p resume) resume.candidate h.budget)
Move-Governed js q (called_off s live) h g =
    rw (evolve-cancelled s _ live) (Governed-IsBounded q s h g)

-- Before a request there is an empty or a cancelled download at most.
Move-ungoverned :
    (js : Runtime) {s : DownloadState} {events : List DownloadEvent}
    → Move js s events
    → Governed none s
    → Governed (requested_policies events) (fold_from s events)
unfolding evolve fold_from
Move-ungoverned js (submitted request policies valid) g = refl
Move-ungoverned js (settled_late p c files) g = g
Move-ungoverned js (called_off empty live) g = refl
Move-ungoverned js (called_off (cancelled p s) live) g = cc
Move-ungoverned js (called_off _ live) g = absurd g
Move-ungoverned js _ g = absurd g

run-Governed :
    (js : Runtime) (commands : List DownloadCommand)
    → All IsAdmissible commands
    → Inv (run js commands) × Governed (requested_policies (history js commands)) (run js commands)
run-Governed js =
    run_induction js (λ events s. Inv s × Governed (requested_policies events) s) (tt, tt)
      λ events s new h m. (
        Move-Inv js m h.0,
        rw (requested_policies-append events new)
            (governed (requested_policies events) s new m h.0 h.1),
      )
  where
    governed :
        (o : Option DownloadPolicies) (s : DownloadState) (new : List DownloadEvent)
        → Move js s new
        → Inv s
        → Governed o s
        → Governed (or_first o (requested_policies new)) (fold_from s new)
    governed none s new m h g = Move-ungoverned js m g
    governed (some q) s new m h g = Move-Governed js q m h g

-- After any admissible commands, whose history opens with a request under some policies, the
-- download has made no more attempts and no more search rounds than those policies allow.
pub budget_kept :
    (js : Runtime) (commands : List DownloadCommand) (q : DownloadPolicies)
    → All IsAdmissible commands
    → requested_policies (history js commands) ≡ some q
    → IsBounded q (progress_of (run js commands))
budget_kept js commands q valid opens =
    let (h, g) = run-Governed js commands valid in
    Governed-IsBounded q (run js commands) h (subst (λ o. Governed o (run js commands)) opens g)
