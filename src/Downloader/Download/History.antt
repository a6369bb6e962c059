-- ===== src/Downloader/Download/History.antt =====
-- The event history that a download's commands write, and what was selected in it.
use music_downloader.Prelude.{◌≡◌, refl, ap, ◌∙◌, List, [], ◌∷◌, ◌++◌, All, ok, err}
use mathlib.Core.List.{append-nil}
use music_downloader.Downloader.Runtime.{Runtime}
use music_downloader.Downloader.Download.Events.{DownloadEvent}
use music_downloader.Downloader.Download.Commands.{DownloadCommand}
use music_downloader.Downloader.Download.State.{
  DownloadState, empty, evolve, fold_from, fold_events,
}
use music_downloader.Downloader.Download.Decide.{Decision, decide}
use music_downloader.Downloader.Download.Runs.{step, run_from, run, after}
use music_downloader.Downloader.Download.Aggregate.{execute}
use music_downloader.Downloader.Download.Moves.{
  IsAdmissible, Move, Decided, refusal, absorbed, moved, decide-Decided,
}

-- The new events of a decision are appended to the stream.
abbrev pub append_decision : List DownloadEvent → Decision → List DownloadEvent
append_decision history (ok events) = history ++ events
append_decision history (err e) = history

unfoldable pub history_from :
    Runtime → List DownloadEvent → List DownloadCommand → List DownloadEvent
history_from js history [] = history
history_from js history (c ∷ cs) =
    history_from js (append_decision history (execute js history c)) cs

-- The stream that the commands write, from an empty one.
unfoldable pub history : Runtime → List DownloadCommand → List DownloadEvent
unfolding history_from
history js commands = history_from js [] commands

pub fold_from-append :
    (s : DownloadState) (xs ys : List DownloadEvent)
    → fold_from s (xs ++ ys) ≡ fold_from (fold_from s xs) ys
unfolding fold_from
fold_from-append s [] ys = refl
fold_from-append s (x ∷ xs) ys = fold_from-append (evolve s x) xs ys

fold-append_decision :
    (events : List DownloadEvent) (d : Decision)
    → fold_events (append_decision events d) ≡ after (fold_events events) d
unfolding fold_events
fold-append_decision events (ok new) = fold_from-append empty events new
fold-append_decision events (err e) = refl

fold-history_from :
    (js : Runtime) (events : List DownloadEvent) (commands : List DownloadCommand)
    → fold_events (history_from js events commands) ≡ run_from js (fold_events events) commands
unfolding history_from run_from step execute
fold-history_from js events [] = refl
fold-history_from js events (c ∷ cs) =
    fold-history_from js (append_decision events (execute js events c)) cs
    ∙ ap (λ s. run_from js s cs) (fold-append_decision events (execute js events c))

-- Replaying the stream gives the state that the commands led to.
pub fold-history :
    (js : Runtime) (commands : List DownloadCommand)
    → fold_events (history js commands) ≡ run js commands
unfolding history run fold_events fold_from
fold-history js commands = fold-history_from js [] commands

-- What holds of the empty stream and is kept by every move holds of the stream and the state after
-- any admissible commands.
module _ {ℓ} (js : Runtime) (P : List DownloadEvent → DownloadState → Type ℓ) (start : P [] empty)
    (keep : (events : List DownloadEvent) (s : DownloadState) (new : List DownloadEvent)
      → P events s
      → Move js s new
      → P (events ++ new) (fold_from s new)) where
  decided_keeps :
      (events : List DownloadEvent) (s : DownloadState) (d : Decision)
      → P events s
      → Decided js s d
      → P (append_decision events d) (after s d)
  unfolding fold_from
  decided_keeps events s _ h (refusal e) = h
  decided_keeps events s _ h absorbed = rw append-nil h
  decided_keeps events s _ h (moved {events = new} m) = keep events s new h m

  run_keeps :
      (events : List DownloadEvent) (commands : List DownloadCommand)
      → P events (fold_events events)
      → All IsAdmissible commands
      → P (history_from js events commands) (run_from js (fold_events events) commands)
  unfolding history_from run_from step execute
  run_keeps events [] h valid = h
  run_keeps events (c ∷ cs) h valid =
      let d = decide js c (fold_events events) in
      let state = fold-append_decision events d in
      let next =
        decided_keeps events (fold_events events) d h
          (decide-Decided js c (fold_events events) valid.0) in
      rw (← state) (run_keeps (append_decision events d) cs (rw state next) valid.1)

  pub run_induction :
      (commands : List DownloadCommand)
      → All IsAdmissible commands
      → P (history js commands) (run js commands)
  unfolding history run fold_events fold_from
  run_induction commands valid = run_keeps [] commands start valid
