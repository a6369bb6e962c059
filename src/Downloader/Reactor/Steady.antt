-- ===== src/Downloader/Reactor/Steady.antt =====
-- What a call, a command and a dispatch leave alone: the log only grows, and the cursor, the parks and
-- the trace stay.
use music_downloader.Eventing.Log.Rows.{
  Grows, Grows-refl, Grows-trans, insert_rows-Grows, arrive-Grows,
}
use music_downloader.Prelude.{
  ℕ, zero, suc, ◌≡◌, refl, ◌∙◌, Bool, true, false, Option, none, some, List, [], ◌∷◌, String,
  length, Bool-cases, ◌==◌, inl, inr, Result, ok, err,
}
use music_downloader.Downloader.Download.Events.{DownloadEvent}
use music_downloader.Downloader.Download.Commands.{DownloadCommand}
use music_downloader.Downloader.Download.Decide.{Decision}
use music_downloader.Downloader.Download.React.{Effect}
use music_downloader.Downloader.Download.Aggregate.{execute}
use music_downloader.Downloader.Log.{StoredEvent, read_stream}
use music_downloader.Downloader.Machine.{Environment, InfraError, DeadLetter, Machine, call}
use music_downloader.Downloader.Handling.{
  CommandError, append, carry_out, attempt_command, apply_command, events_in,
}
use music_downloader.Downloader.Interpreter.{ask, answered, interpret_effect}
use music_downloader.Downloader.Lander.{
  FailureClass, retryable, permanent, rejection, classify_command_error, degrade_command,
  dead_letter, landed_by, land, clear_stalled,
}
use music_downloader.Downloader.Reactor.{
  DispatchOutcome, after_landing, handle_effect_error, after_effect, dispatch_effects,
}

pub record Steady (m m' : Machine) : Type 0 where
  pub cursor : m'.cursor ≡ m.cursor
  pub checkpoint : m'.checkpoint ≡ m.checkpoint
  pub parks : m'.parks ≡ m.parks
  pub trace : m'.trace ≡ m.trace
  pub grows : Grows m.log m'.log

pub Steady-refl : (m : Machine) → Steady m m
Steady-refl m = record {
  cursor = refl;
  checkpoint = refl;
  parks = refl;
  trace = refl;
  grows = Grows-refl m.log;
}

pub Steady-trans : {a b c : Machine} → Steady a b → Steady b c → Steady a c
Steady-trans s t = record {
  cursor = t.cursor ∙ s.cursor;
  checkpoint = t.checkpoint ∙ s.checkpoint;
  parks = t.parks ∙ s.parks;
  trace = t.trace ∙ s.trace;
  grows = Grows-trans s.grows t.grows;
}

module _ (env : Environment) where
  pub call-Steady : (m : Machine) → Steady m (call env m)
  unfolding call
  call-Steady m = record {
    cursor = refl;
    checkpoint = refl;
    parks = refl;
    trace = refl;
    grows = arrive-Grows (env.arrivals m.tick) m.log;
  }

  append-Steady :
      (id : String) (version : ℕ) (events : List DownloadEvent)
      (again : Machine → Result CommandError Unit × Machine)
      → ((n : Machine) → Steady n (again n).1)
      → (m : Machine) → Steady m (append env id version events again m).1
  unfolding append
  append-Steady id version events again steady m = elim (Bool-cases (env.faults m.tick)) [
    | inl fault ↦ rw fault (call-Steady m)
    | inr none_fails ↦ elim (Bool-cases (length (read_stream id (call env m).log) == version)) [
      | inl same ↦
          rw (none_fails, same)
            (Steady-trans (call-Steady m) (record {
              cursor = refl;
              checkpoint = refl;
              parks = refl;
              trace = refl;
              grows = insert_rows-Grows id events (call env m).log;
            }))
      | inr lost ↦ rw (none_fails, lost) (Steady-trans (call-Steady m) (steady (call env m)))
    ]
  ]

  carry_out-Steady :
      (id : String) (version : ℕ) (decision : Decision)
      (again : Machine → Result CommandError Unit × Machine)
      → ((n : Machine) → Steady n (again n).1)
      → (m : Machine) → Steady m (carry_out env id version decision again m).1
  unfolding carry_out
  carry_out-Steady id version (err e) again steady m = Steady-refl m
  carry_out-Steady id version (ok []) again steady m = Steady-refl m
  carry_out-Steady id version (ok (event ∷ events)) again steady m =
      append-Steady id version (event ∷ events) again steady m

  attempt_command-Steady :
      (left : ℕ) (id : String) (command : DownloadCommand) (m : Machine)
      → Steady m (attempt_command env left id command m).1
  unfolding attempt_command
  attempt_command-Steady zero id command m = elim (Bool-cases (env.faults m.tick)) [
    | inl fault ↦ rw fault (call-Steady m)
    | inr read ↦ rw read (
        Steady-trans (call-Steady m) (
          carry_out-Steady id _ (execute env.js (events_in id (call env m).log) command) _
            Steady-refl (call env m)))
  ]
  attempt_command-Steady (suc left) id command m = elim (Bool-cases (env.faults m.tick)) [
    | inl fault ↦ rw fault (call-Steady m)
    | inr read ↦ rw read (
        Steady-trans (call-Steady m) (
          carry_out-Steady id _ (execute env.js (events_in id (call env m).log) command) _
            (attempt_command-Steady left id command) (call env m)))
  ]

  apply_command-Steady :
      (id : String) (command : DownloadCommand) (m : Machine)
      → Steady m (apply_command env id command m).1
  unfolding apply_command
  apply_command-Steady = attempt_command-Steady 2

  answered-Steady :
      (id : String) (answer : Result InfraError (Option DownloadCommand)) (m : Machine)
      → Steady m (answered env id answer m).1
  unfolding answered
  answered-Steady id (err e) m = Steady-refl m
  answered-Steady id (ok none) m = Steady-refl m
  answered-Steady id (ok (some command)) m = apply_command-Steady id command m

  interpret_effect-Steady :
      (id : String) (effect : Effect) (m : Machine) → Steady m (interpret_effect env id effect m).1
  unfolding interpret_effect
  interpret_effect-Steady id effect m =
      Steady-trans (call-Steady m) (answered-Steady id (ask env m.tick id effect) (call env m))

  dead_letter-Steady :
      (s : StoredEvent) (effect : Effect) (attempt : ℕ) (m : Machine)
      → Steady m (dead_letter env s effect attempt m).1
  unfolding dead_letter
  dead_letter-Steady s effect attempt m = elim (Bool-cases (env.faults m.tick)) [
    | inl fault ↦ rw fault (call-Steady m)
    | inr written ↦ rw written (steadily (call-Steady m))
  ]
    where
      steadily :
          {letters : List DeadLetter} {stalled : List String}
          → Steady m (call env m)
          → Steady m (record (call env m) { letters = letters; stalled = stalled })
      steadily h = record {
        cursor = h.cursor;
        checkpoint = h.checkpoint;
        parks = h.parks;
        trace = h.trace;
        grows = h.grows;
      }

  landed_by-Steady :
      (s : StoredEvent) (effect : Effect) (attempt : ℕ) (degrade : Option DownloadCommand)
      (m : Machine)
      → Steady m (landed_by env s effect attempt degrade m).1
  unfolding landed_by
  landed_by-Steady s effect attempt none m = dead_letter-Steady s effect attempt m
  landed_by-Steady s effect attempt (some command) m = apply_command-Steady s.stream_id command m

  pub land-Steady :
      (s : StoredEvent) (effect : Effect) (attempt : ℕ) (m : Machine)
      → Steady m (land env s effect attempt m).1
  unfolding land
  land-Steady s effect attempt m = landed_by-Steady s effect attempt (degrade_command effect) m

  pub clear_stalled-Steady : (id : String) (m : Machine) → Steady m (clear_stalled env id m)
  unfolding clear_stalled
  clear_stalled-Steady id m = elim (Bool-cases (env.faults m.tick)) [
    | inl fault ↦ rw fault (call-Steady m)
    | inr cleared ↦
        let h = call-Steady m in
        rw cleared (record {
          cursor = h.cursor;
          checkpoint = h.checkpoint;
          parks = h.parks;
          trace = h.trace;
          grows = h.grows;
        })
  ]

  after_landing-machine :
      (effect : Effect) (r : Bool × Machine) → (after_landing env effect r).1 ≡ r.1
  after_landing-machine effect (true, m) = refl
  after_landing-machine effect (false, m) = refl

  handle_effect_error-Steady :
      (s : StoredEvent) (effect : Effect) (class : FailureClass) (m : Machine)
      → Steady m (handle_effect_error env s effect class m).1
  unfolding handle_effect_error
  handle_effect_error-Steady s effect permanent m =
      rw (after_landing-machine effect (land env s effect 1 m)) (land-Steady s effect 1 m)
  handle_effect_error-Steady s effect retryable m = Steady-refl m
  handle_effect_error-Steady s effect rejection m = Steady-refl m

  after_effect-Steady :
      (s : StoredEvent) (effect : Effect) (rest : Machine → DispatchOutcome × Machine)
      → ((n : Machine) → Steady n (rest n).1)
      → (r : Result CommandError Unit × Machine) → Steady r.1 (after_effect env s effect rest r).1
  unfolding after_effect
  after_effect-Steady s effect rest steady (ok done, m) = steady m
  after_effect-Steady s effect rest steady (err e, m) =
      handle_effect_error-Steady s effect (classify_command_error e) m

  pub dispatch_effects-Steady :
      (s : StoredEvent) (effects : List Effect) (m : Machine)
      → Steady m (dispatch_effects env s effects m).1
  unfolding dispatch_effects
  dispatch_effects-Steady s [] m = Steady-refl m
  dispatch_effects-Steady s (effect ∷ effects) m =
      Steady-trans (interpret_effect-Steady s.stream_id effect m) (
        after_effect-Steady s effect (dispatch_effects env s effects)
          (dispatch_effects-Steady s effects) (interpret_effect env s.stream_id effect m))
