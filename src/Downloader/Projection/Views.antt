-- ===== src/Downloader/Projection/Views.antt =====
-- What the view of a download shows of its commands and its state.
use music_downloader.Prelude.{
  ℕ, ◌+◌, ◌≡◌, refl, sym, ap, ◌∙◌, Bool, true, false, Option, none, some, List, [], ◌∷◌, ◌++◌,
  String, leb, ltb, arith, All, length, Bool-cases, inl, inr, ok, err, subst,
}
use music_downloader.Downloader.Runtime.{Runtime}
use music_downloader.Downloader.Ranking.{RankedCandidate}
use music_downloader.Downloader.Target.{Target}
use music_downloader.Downloader.Download.Events.{DownloadEvent, candidate_selected}
use music_downloader.Downloader.Download.Commands.{DownloadCommand, cancel_download}
use music_downloader.Downloader.Download.State.{
  Targeted, DownloadState, searching, selecting, downloading, validating, importing, fulfilled,
  is_terminal, progress_of, evolve, fold_from, fold_events,
}
use music_downloader.Downloader.Download.Decide.{
  Decision, decide, select_next, ladder_of, decide_search_results, reject_and_advance,
}
use music_downloader.Downloader.Download.Runs.{run}
use music_downloader.Downloader.Download.Moves.{
  IsAdmissible, resumed, Move, submitted, resolved, unresolved, paused, chosen, searched, completed,
  failed, settled_late, passed, refused, delivered, occupied, revived, called_off, evolve-cancelled,
}
use music_downloader.Downloader.Download.History.{history, run_induction, fold-history}
use music_downloader.Downloader.Download.Invariant.{next_round, rejecting}
use music_downloader.Prelude.{map}
use music_downloader.Downloader.Download.Selections.{selected_keys, attempts_are_selections}
use music_downloader.Downloader.Download.Aggregate.{snapshot, execute}
use music_downloader.Downloader.Projection.{
  selected_entry, StatusHistoryEntry, ViewTarget, StoredEvent, history_payload_of, entry_of,
  history_of, retarget, target_from, project_status,
}

-- The events of stored ones.
abbrev pub events_of : List StoredEvent → List DownloadEvent
events_of = map (λ entry. entry.event)

abbrev is_selected : StatusHistoryEntry → Bool
is_selected entry = elim entry.payload [ selected_entry candidate ↦ true | _ ↦ false ]

abbrev one_if : Bool → ℕ
one_if true = 1
one_if false = 0

-- How many entries of a history select a candidate.
unfoldable pub count_selected : List StatusHistoryEntry → ℕ
count_selected [] = 0
count_selected (entry ∷ entries) = one_if (is_selected entry) + count_selected entries

entry_of-selected :
    (e : DownloadEvent) (time : String) (rest : List StatusHistoryEntry)
    (events : List DownloadEvent)
    → count_selected rest ≡ length (selected_keys events)
    → count_selected (entry_of time (history_payload_of e) ++ rest)
      ≡ length (selected_keys (e ∷ events))
unfolding count_selected history_payload_of
entry_of-selected (candidate_selected c) time rest events h = omega (arith, h)
entry_of-selected _ time rest events h = omega (arith, h)

history_of-selected :
    (stored : List StoredEvent)
    → count_selected (history_of stored) ≡ length (selected_keys (events_of stored))
unfolding count_selected history_of
history_of-selected [] = refl
history_of-selected (entry ∷ stored) =
    entry_of-selected entry.event entry.occurred_at (history_of stored) (events_of stored)
      (history_of-selected stored)

-- The view of the stream of any admissible commands counts as many attempts as its history shows
-- selections.
pub view_counts_selections :
    (js : Runtime) (commands : List DownloadCommand) (id : String) (stored : List StoredEvent)
    → All IsAdmissible commands
    → events_of stored ≡ history js commands
    → (project_status id stored).attempts ≡ count_selected (project_status id stored).history
unfolding project_status snapshot
view_counts_selections js commands id stored valid e =
    ap (λ events. (progress_of (fold_events events)).attempts) e
    ∙ ap (λ s. (progress_of s).attempts) (fold-history js commands)
    ∙ attempts_are_selections js commands valid
    ∙ ap (λ events. length (selected_keys events)) (sym e)
    ∙ sym (history_of-selected stored)

-- The decision appends events.
abbrev pub acts : Decision → Bool
acts (ok []) = false
acts (ok (e ∷ es)) = true
acts (err e) = false

-- A view offers to cancel exactly when a cancellation of its stream would append an event.
pub cancellable_when_cancel_acts :
    (js : Runtime) (id : String) (stored : List StoredEvent)
    → (project_status id stored).cancellable ≡ acts (execute js (events_of stored) cancel_download)
unfolding project_status execute decide
cancellable_when_cancel_acts js id stored =
    elim (Bool-cases (is_terminal (fold_events (events_of stored)))) [
      | inl done ↦ rw done refl
      | inr live ↦ rw live refl
    ]

-- The title and artist of what a state works on.
abbrev pub names : Target → ViewTarget
names target = record { artist = target.artist; title = target.title }

-- The target shown is the one that the state works on.
abbrev pub Shows : Option ViewTarget → DownloadState → Type 0
Shows shown (searching t) = shown ≡ some (names t.target)
Shows shown (selecting t w) = shown ≡ some (names t.target)
Shows shown (downloading t w c b) = shown ≡ some (names t.target)
Shows shown (validating t w c fs) = shown ≡ some (names t.target)
Shows shown (importing t w c fs) = shown ≡ some (names t.target)
Shows shown (fulfilled p l (some resume)) = shown ≡ some (names resume.target)
Shows shown _ = Unit

target_from-append :
    (o : Option ViewTarget) (xs ys : List DownloadEvent)
    → target_from o (xs ++ ys) ≡ target_from (target_from o xs) ys
unfolding target_from
target_from-append o [] ys = refl
target_from-append o (x ∷ xs) ys = target_from-append (retarget o x) xs ys

select_next-Shows :
    (o : Option ViewTarget) (t : Targeted) (w : List RankedCandidate)
    → o ≡ some (names t.target)
    → Shows
        (retarget o (select_next (ladder_of t w)))
        (evolve (selecting t w) (select_next (ladder_of t w)))
unfolding select_next evolve
select_next-Shows o t [] h =
    elim (Bool-cases (leb t.policies.retry.max_total_attempts t.attempts)) [
      | inl spent ↦ rw spent tt
      | inr left ↦ elim (Bool-cases (ltb t.search_rounds t.policies.retry.max_search_rounds)) [
        | inl again ↦ rw (left, again) h
        | inr no_round ↦ rw (left, no_round) tt
      ]
    ]
select_next-Shows o t (r ∷ w) h =
    elim (Bool-cases (leb t.policies.retry.max_total_attempts t.attempts)) [
      | inl spent ↦ rw spent tt
      | inr left ↦ rw left h
    ]

Move-Shows :
    (js : Runtime) {s : DownloadState} {events : List DownloadEvent}
    → Move js s events
    → (o : Option ViewTarget) → Shows o s
    → Shows (target_from o events) (fold_from s events)
unfolding evolve fold_from reject_and_advance decide_search_results target_from
Move-Shows js (submitted request policies valid) o h = tt
Move-Shows js (resolved r target) o h = refl
Move-Shows js (unresolved r) o h = tt
Move-Shows js (paused r candidates group offered) o h = tt
Move-Shows js (chosen r candidates release_mbid known) o h = tt
Move-Shows js (searched t candidates) o h = select_next-Shows o (next_round t) _ h
Move-Shows js (Move.started t w c) o h = h
Move-Shows js (completed t w c b files) o h = h
Move-Shows js (failed t w c b reason files) o h = select_next-Shows o (rejecting t c) w h
Move-Shows js (settled_late p c files) o h = tt
Move-Shows js (passed t w c files verdict) o h = h
Move-Shows js (refused t w c files verdict) o h = select_next-Shows o (rejecting t c) w h
Move-Shows js (delivered t w c files location) o h = h
Move-Shows js (occupied t w c files location) o h = tt
Move-Shows js (revived p location resume reasons) o h =
    select_next-Shows o (rejecting (resumed p resume) resume.candidate) resume.working h
Move-Shows js (called_off s live) o h = rw (evolve-cancelled s _ live) tt

-- The view of the stream of any admissible commands shows the title and the artist of the target that
-- the download works on, in every phase that has one.
pub view_target-Shows :
    (js : Runtime) (commands : List DownloadCommand) (id : String) (stored : List StoredEvent)
    → All IsAdmissible commands
    → events_of stored ≡ history js commands
    → Shows (project_status id stored).target (run js commands)
unfolding project_status
view_target-Shows js commands id stored valid e =
    subst (λ events. Shows (target_from none events) (run js commands)) (sym e)
      (run_induction js (λ events s. Shows (target_from none events) s) tt
        (λ events s new h m.
          subst (λ o. Shows o (fold_from s new)) (sym (target_from-append none events new))
            (Move-Shows js m (target_from none events) h))
        commands valid)
