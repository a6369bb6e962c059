-- ===== src/Importer/Import/Induction.antt =====
-- Induction on the commands of an import, move by move.
use music_downloader.Prelude.{List, [], ◌++◌}
use music_downloader.Importer.Import.Events.{ImportEvent}
use music_downloader.Importer.Import.Commands.{ImportCommand}
use music_downloader.Importer.Import.State.{ImportState, empty, fold_from, fold_events}
use music_downloader.Importer.Import.Decide.{Decision, decide}
use music_downloader.Importer.Import.Runs.{events_of, history, history_induction}
use music_downloader.Importer.Import.Moves.{
  Move, Decided, refusal, converged, moved, decide-Decided,
}
use mathlib.Core.List.{append-nil}

-- A property that every move keeps holds after every sequence of commands.
module _ (P : List ImportEvent → ImportState → Type 0) (base : P [] empty)
    (keeps : (events : List ImportEvent) (s : ImportState) (new : List ImportEvent)
      → Move s new
      → P events s
      → P (events ++ new) (fold_from s new)) where
  decided_keeps :
      (events : List ImportEvent) (s : ImportState) (decision : Decision)
      → Decided s decision
      → P events s
      → P (events ++ events_of decision) (fold_from s (events_of decision))
  unfolding fold_from
  decided_keeps events s _ (refusal e) h = rw append-nil h
  decided_keeps events s _ converged h = rw append-nil h
  decided_keeps events s _ (moved m) h = keeps events s _ m h

  pub move_induction :
      (commands : List ImportCommand) → P (history commands) (fold_events (history commands))
  move_induction commands =
      history_induction P base
        (λ events s command h.
          decided_keeps events s (decide command s) (decide-Decided command s) h)
        commands
