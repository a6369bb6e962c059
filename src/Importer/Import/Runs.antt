-- ===== src/Importer/Import/Runs.antt =====
-- Sequences of commands: each is executed on the history, and its events appended.
use music_downloader.Prelude.{◌≡◌, refl, sym, subst, List, [], ◌∷◌, ◌++◌, ok, err}
use music_downloader.Importer.Import.Events.{ImportEvent}
use music_downloader.Importer.Import.Commands.{ImportCommand}
use music_downloader.Importer.Import.State.{ImportState, empty, evolve, fold_from, fold_events}
use music_downloader.Importer.Import.Decide.{Decision, decide}
use music_downloader.Importer.Import.Aggregate.{execute}

abbrev pub events_of : Decision → List ImportEvent
events_of (ok events) = events
events_of (err e) = []

unfoldable pub append_decision : List ImportEvent → ImportCommand → List ImportEvent
unfolding execute
append_decision events command = events ++ events_of (execute events command)

unfoldable pub history_from : List ImportEvent → List ImportCommand → List ImportEvent
unfolding append_decision
history_from events [] = events
history_from events (command ∷ commands) = history_from (append_decision events command) commands

unfoldable pub history : List ImportCommand → List ImportEvent
unfolding history_from
history = history_from []

pub fold_from-append :
    (s : ImportState) (xs ys : List ImportEvent)
    → fold_from s (xs ++ ys) ≡ fold_from (fold_from s xs) ys
unfolding fold_from
fold_from-append s [] ys = refl
fold_from-append s (x ∷ xs) ys = fold_from-append (evolve s x) xs ys

-- A property of the history and its fold holds for every sequence of commands when it holds of the
-- empty history and every decision keeps it.
module _ (P : List ImportEvent → ImportState → Type 0) (base : P [] empty)
    (next : (events : List ImportEvent) (s : ImportState) (command : ImportCommand)
      → P events s
      → P
          (events ++ events_of (decide command s))
          (fold_from s (events_of (decide command s)))) where
  from :
      (events : List ImportEvent) (commands : List ImportCommand)
      → P events (fold_events events)
      → P (history_from events commands) (fold_events (history_from events commands))
  unfolding history_from append_decision execute fold_events
  from events [] h = h
  from events (command ∷ commands) h = from (append_decision events command) commands (
      subst (P (append_decision events command))
        (sym (fold_from-append empty events (events_of (execute events command))))
        (next events (fold_events events) command h))

  pub history_induction :
      (commands : List ImportCommand) → P (history commands) (fold_events (history commands))
  unfolding history fold_events
  history_induction commands = from [] commands base
