-- ===== src/Downloader/Download/Driving.antt =====
-- The last event of a history alone restarts the work that its state waits for.
use music_downloader.Prelude.{
  ◌+◌, ◌≡◌, refl, sym, ap, ◌∙◌, false, get_or, Option, none, some, List, [], ◌∷◌, ◌++◌, leb, ltb,
  arith, All, Bool-cases, inl, inr, subst,
}
use music_downloader.Downloader.Runtime.{Runtime}
use music_downloader.Downloader.Ranking.{RankedCandidate}
use music_downloader.Downloader.Target.{album}
use music_downloader.Downloader.Download.Events.{
  DownloadRequest, musicbrainz, DownloadedFile, DownloadEvent, download_requested, target_resolved,
  edition_selected, try_started, try_completed, validation_passed, download_cancelled,
  metadata_resolution_failed, manual_selection_requested, candidate_rejected, fulfillment_rejected,
  import_conflicted,
}
use music_downloader.Downloader.Download.Commands.{DownloadCommand}
use music_downloader.Downloader.Download.State.{
  Progress, Targeted, nothing_staged, settled, in_flight, conflicted, is_terminal, DownloadState,
  pending, searching, selecting, downloading, validating, importing, cancelled, progress_of, evolve,
  fold_from,
}
use music_downloader.Downloader.Download.Decide.{
  select_next, ladder_of, decide_search_results, reject_and_advance, staged_files_of,
}
use music_downloader.Downloader.Download.Runs.{run}
use music_downloader.Downloader.Download.Moves.{
  IsAdmissible, resumed, Move, submitted, resolved, unresolved, paused, chosen, searched, completed,
  failed, settled_late, passed, refused, delivered, occupied, revived, called_off, staging_of,
  evolve-cancelled,
}
use music_downloader.Downloader.Download.History.{history, run_induction, fold-history}
use music_downloader.Downloader.Download.Invariant.{Inv, next_round, rejecting, Move-Inv}
use music_downloader.Downloader.Download.React.{
  Effect, resolve_metadata, search_for, download, validate, import_files, cleanup, abort_download,
  react,
}
use music_downloader.Downloader.Download.Aggregate.{react_to}

abbrev pub last_event : List DownloadEvent → Option DownloadEvent
last_event [] = none
last_event (e ∷ []) = some e
last_event (e ∷ f ∷ es) = last_event (f ∷ es)

last_event-append :
    (xs : List DownloadEvent) (y : DownloadEvent) (ys : List DownloadEvent)
    → last_event (xs ++ y ∷ ys) ≡ last_event (y ∷ ys)
last_event-append [] y ys = refl
last_event-append (x ∷ []) y ys = refl
last_event-append (x ∷ x' ∷ xs) y ys = last_event-append (x' ∷ xs) y ys

-- What metadata is to be resolved for: the edition that was chosen last, or what was requested.
abbrev pub asked_by : DownloadRequest → DownloadEvent → DownloadRequest
asked_by request (download_requested other policies) = other
asked_by request (edition_selected release_mbid) = musicbrainz release_mbid album
asked_by request e = request

unfoldable pub asked_from : DownloadRequest → List DownloadEvent → DownloadRequest
asked_from request [] = request
asked_from request (e ∷ es) = asked_from (asked_by request e) es

-- The files that the transfer completed last left behind; a download that is taken up again has none.
abbrev pub delivered_by : List DownloadedFile → DownloadEvent → List DownloadedFile
delivered_by files (try_completed candidate fs) = fs
delivered_by files (fulfillment_rejected candidate reasons) = []
delivered_by files e = files

unfoldable pub delivered_from : List DownloadedFile → List DownloadEvent → List DownloadedFile
delivered_from files [] = files
delivered_from files (e ∷ es) = delivered_from (delivered_by files e) es

-- A transfer that settled after the cancellation is cleaned up.
abbrev pub left_by : Option DownloadEvent → List Effect
left_by (some (candidate_rejected candidate files)) = cleanup (get_or files []) ∷ []
left_by e = []

-- The effects that the last event of a history asks for: a pending download resolves metadata, a
-- searching one searches the next round, one with a candidate downloads, validates or imports it, one
-- that was cancelled aborts its transfer or cleans up what it delivered, one that ended in a conflict
-- cleans up too, and the other ones ask for nothing.
abbrev pub Drives : List DownloadEvent → DownloadState → List Effect → Type 0
Drives events (pending r) effects = effects ≡ resolve_metadata (asked_from r.request events) ∷ []
Drives events (searching t) effects = effects ≡ search_for t.target (t.search_rounds + 1) ∷ []
Drives events (downloading t w c b) effects = effects ≡ download c t.policies.download ∷ []
Drives events (validating t w c files) effects =
    effects ≡ validate (delivered_from [] events) t.target t.policies.matching ∷ []
Drives events (importing t w c files) effects =
    effects ≡ import_files (delivered_from [] events) t.target ∷ []
Drives events (cancelled p (in_flight c)) effects = effects ≡ abort_download c ∷ []
Drives events (cancelled p (settled c)) effects = effects ≡ cleanup (delivered_from [] events) ∷ []
Drives events (cancelled p nothing_staged) effects = effects ≡ left_by (last_event events)
Drives events (conflicted p location c) effects = effects ≡ cleanup (delivered_from [] events) ∷ []
Drives events _ effects = effects ≡ []

-- The files in a phase are those that were delivered.
abbrev Staged : List DownloadEvent → DownloadState → Type 0
Staged events (validating t w c files) = files ≡ delivered_from [] events
Staged events (importing t w c files) = files ≡ delivered_from [] events
Staged events _ = Unit

asked_from-append :
    (request : DownloadRequest) (xs ys : List DownloadEvent)
    → asked_from request (xs ++ ys) ≡ asked_from (asked_from request xs) ys
unfolding asked_from
asked_from-append request [] ys = refl
asked_from-append request (x ∷ xs) ys = asked_from-append (asked_by request x) xs ys

delivered_from-append :
    (files : List DownloadedFile) (xs ys : List DownloadEvent)
    → delivered_from files (xs ++ ys) ≡ delivered_from (delivered_from files xs) ys
unfolding delivered_from
delivered_from-append files [] ys = refl
delivered_from-append files (x ∷ xs) ys = delivered_from-append (delivered_by files x) xs ys

-- What the last move made of the history and the state.
record FollowsUp (events : List DownloadEvent) (s : DownloadState) : Type 0 where
  staged : Staged events s
  driven : (f : DownloadEvent) → last_event events ≡ some f → Drives events s (react f s)

ends_with :
    (events : List DownloadEvent) (y : DownloadEvent) (ys : List DownloadEvent) (e : DownloadEvent)
    (s : DownloadState)
    → last_event (y ∷ ys) ≡ some e
    → Staged (events ++ y ∷ ys) s × Drives (events ++ y ∷ ys) s (react e s)
    → FollowsUp (events ++ y ∷ ys) s
ends_with events y ys e s l h = record {
  staged = h.0;
  driven = λ f at_end.
      subst (λ g. Drives (events ++ y ∷ ys) s (react g s))
        (same e f (sym l ∙ sym (last_event-append events y ys) ∙ at_end)) h.1;
}
  where
    same : (a b : DownloadEvent) → some a ≡ some b → a ≡ b
    same a b eq = ground arith

select_next-Drives :
    (t : Targeted) (w : List RankedCandidate) (events : List DownloadEvent)
    → let s = evolve (selecting t w) (select_next (ladder_of t w)) in
      Staged events s × Drives events s (react (select_next (ladder_of t w)) s)
unfolding select_next evolve react
select_next-Drives t [] events =
    elim (Bool-cases (leb t.policies.retry.max_total_attempts t.attempts)) [
      | inl spent ↦ rw spent (tt, refl)
      | inr left ↦ elim (Bool-cases (ltb t.search_rounds t.policies.retry.max_search_rounds)) [
        | inl again ↦ rw (left, again) (tt, refl)
        | inr no_round ↦ rw (left, no_round) (tt, refl)
      ]
    ]
select_next-Drives t (r ∷ w) events =
    elim (Bool-cases (leb t.policies.retry.max_total_attempts t.attempts)) [
      | inl spent ↦ rw spent (tt, refl)
      | inr left ↦ rw left (tt, refl)
    ]

-- The ladder's next move ends a batch.
ladder-FollowsUp :
    (t : Targeted) (w : List RankedCandidate) (events : List DownloadEvent) (e f : DownloadEvent)
    → FollowsUp
        (events ++ e ∷ f ∷ select_next (ladder_of t w) ∷ [])
        (evolve (selecting t w) (select_next (ladder_of t w)))
ladder-FollowsUp t w events e f =
    let next = select_next (ladder_of t w) in
    ends_with events e (f ∷ next ∷ []) next (evolve (selecting t w) next) refl
      (select_next-Drives t w (events ++ e ∷ f ∷ next ∷ []))

-- The files that were delivered before an event that delivers none.
still_delivered :
    (files : List DownloadedFile) (events : List DownloadEvent) (e : DownloadEvent)
    → files ≡ delivered_from [] events
    → delivered_by (delivered_from [] events) e ≡ delivered_from [] events
    → files ≡ delivered_from [] (events ++ e ∷ [])
unfolding delivered_from
still_delivered files events e h keeps =
    h ∙ sym keeps ∙ sym (delivered_from-append [] events (e ∷ []))

cancelled-Drives :
    (s : DownloadState) (events : List DownloadEvent) (files : Option (List DownloadedFile))
    → is_terminal s ≡ false
    → files ≡ some (staged_files_of s)
    → Staged events s
    → let s' = cancelled (progress_of s) (staging_of s) in
      Drives (events ++ download_cancelled files ∷ []) s' (react (download_cancelled files) s')
unfolding react
cancelled-Drives (downloading t w c b) events files live named st = refl
cancelled-Drives (validating t w c fs) events files live named st =
    rw named
      (ap (λ l. cleanup l ∷ []) (still_delivered fs events (download_cancelled (some fs)) st refl))
cancelled-Drives (importing t w c fs) events files live named st =
    rw named
      (ap (λ l. cleanup l ∷ []) (still_delivered fs events (download_cancelled (some fs)) st refl))
cancelled-Drives _ events files live named st =
    rw (last_event-append events (download_cancelled files) []) refl

Move-FollowsUp :
    (js : Runtime) (events : List DownloadEvent) {s : DownloadState} {new : List DownloadEvent}
    → Move js s new
    → Inv s
    → Staged events s
    → FollowsUp (events ++ new) (fold_from s new)
unfolding evolve fold_from reject_and_advance decide_search_results react asked_from delivered_from
Move-FollowsUp js events (submitted request policies valid) h st =
    ends_with events (download_requested request policies) [] _ _ refl
      (tt, rw (asked_from-append request events (download_requested request policies ∷ [])) refl)
Move-FollowsUp js events (resolved r target) h st =
    ends_with events (target_resolved target) [] _ _ refl
      (tt, ap (λ (p : Progress). search_for target (p.search_rounds + 1) ∷ []) (sym h.0))
Move-FollowsUp js events (unresolved r) h st =
    ends_with events metadata_resolution_failed [] _ _ refl (tt, refl)
Move-FollowsUp js events (paused r candidates group offered) h st =
    ends_with events (manual_selection_requested candidates) [] _ _ refl (tt, refl)
Move-FollowsUp js events (chosen r candidates release_mbid known) h st =
    ends_with events (edition_selected release_mbid) [] _ _ refl
      (tt, rw (asked_from-append r.request events (edition_selected release_mbid ∷ [])) refl)
Move-FollowsUp js events (searched t candidates) h st = ladder-FollowsUp (next_round t) _ events _ _
Move-FollowsUp js events (Move.started t w c) h st =
    ends_with events (try_started c.identity) [] _ _ refl (tt, refl)
Move-FollowsUp js events (completed t w c b files) h st =
    ends_with events (try_completed c.identity files) [] _ _ refl (
      sym (delivered_from-append [] events (try_completed c.identity files ∷ [])),
      rw (delivered_from-append [] events (try_completed c.identity files ∷ [])) refl,
    )
Move-FollowsUp js events (failed t w c b reason files) h st =
    ladder-FollowsUp (rejecting t c) w events _ _
Move-FollowsUp js events (settled_late p c files) h st =
    ends_with events (candidate_rejected c.identity (some files)) [] _ _ refl
      (tt, rw (last_event-append events (candidate_rejected c.identity (some files)) []) refl)
Move-FollowsUp js events (passed t w c files verdict) h st =
    let now = still_delivered files events (validation_passed c.identity verdict) st refl in
    ends_with events (validation_passed c.identity verdict) [] _ _ refl
      (now, ap (λ l. import_files l t.target ∷ []) now)
Move-FollowsUp js events (refused t w c files verdict) h st =
    ladder-FollowsUp (rejecting t c) w events _ _
Move-FollowsUp js events (delivered t w c files location) h st =
    ends_with events _ _ _ _ refl (tt, refl)
Move-FollowsUp js events (occupied t w c files location) h st =
    ends_with events (import_conflicted location (some files)) [] _ _ refl (
      tt,
      ap (λ l. cleanup l ∷ [])
          (still_delivered files events (import_conflicted location (some files)) st refl),
    )
Move-FollowsUp js events (revived p location resume reasons) h st =
    ladder-FollowsUp (rejecting (resumed p resume) resume.candidate) resume.working events _ _
Move-FollowsUp js events (called_off s live) h st = rw (evolve-cancelled s _ live) (
    ends_with events (download_cancelled (some (staged_files_of s))) [] _ _ refl
      (tt, cancelled-Drives s events (some (staged_files_of s)) live refl st))

run-FollowsUp :
    (js : Runtime) (commands : List DownloadCommand)
    → All IsAdmissible commands
    → Inv (run js commands) × FollowsUp (history js commands) (run js commands)
run-FollowsUp js =
    run_induction js (λ events s. Inv s × FollowsUp events s)
      (tt, record { staged = tt; driven = λ f l. cc })
      λ events s new h m. (Move-Inv js m h.0, Move-FollowsUp js events m h.0 h.1.staged)

-- After any admissible commands, the reaction to the last event of the history is exactly what the
-- state then waits for: a pending download resolves the edition that was chosen last, or else what was
-- requested; a searching one searches its next round; one with a candidate downloads it, or validates
-- or imports what was delivered last; one cancelled or in conflict aborts its transfer or cleans up;
-- and the other ones ask for nothing.
pub last_event-Drives :
    (js : Runtime) (commands : List DownloadCommand) (e : DownloadEvent)
    → All IsAdmissible commands
    → last_event (history js commands) ≡ some e
    → Drives (history js commands) (run js commands) (react_to (history js commands) e)
unfolding react_to
last_event-Drives js commands e valid last =
    rw (fold-history js commands) ((run-FollowsUp js commands valid).1.driven e last)
