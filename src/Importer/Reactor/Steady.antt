-- ===== src/Importer/Reactor/Steady.antt =====
-- What calls, commands and effects leave alone: the log is only extended, and the cursor, the
-- checkpoint, the tallies and the trace stay.
use music_downloader.Prelude.{
  ℕ, ◌≡◌, refl, ◌∙◌, Bool, true, false, not, Option, none, some, List, [], String, length,
  Bool-cases, ◌==◌, inl, inr, Result, ok, err,
}
use music_downloader.Eventing.Log.{read_stream}
use music_downloader.Eventing.Log.Versions.{
  Extends, Extends-refl, Extends-trans, insert_rows-Extends, arrive-Extends,
}
use music_downloader.Importer.Import.Commands.{ImportCommand}
use music_downloader.Importer.Import.React.{Effect}
use music_downloader.Importer.Handling.{CommandError, PendingAppend, load_and_decide}
use music_downloader.Importer.Machine.{Environment, DeadLetter, Machine, call}
use music_downloader.Importer.Interpreter.{
  store_of, append_rows, carry_out, apply_command, ask, answered, interpret_effect,
}
use music_downloader.Importer.Reactor.{clear_stalled, resolve_stalled}
use music_downloader.Importer.Reactor.Running.{pruned, seed_stalled}

pub record Steady (m m' : Machine) : Type 0 where
  pub cursor : m'.cursor ≡ m.cursor
  pub checkpoint : m'.checkpoint ≡ m.checkpoint
  pub tallies : m'.tallies ≡ m.tallies
  pub trace : m'.trace ≡ m.trace
  pub extends : Extends m.log m'.log

pub Steady-refl : (m : Machine) → Steady m m
Steady-refl m = record {
  cursor = refl;
  checkpoint = refl;
  tallies = refl;
  trace = refl;
  extends = Extends-refl m.log;
}

pub Steady-trans : {a b c : Machine} → Steady a b → Steady b c → Steady a c
Steady-trans s t = record {
  cursor = t.cursor ∙ s.cursor;
  checkpoint = t.checkpoint ∙ s.checkpoint;
  tallies = t.tallies ∙ s.tallies;
  trace = t.trace ∙ s.trace;
  extends = Extends-trans s.extends t.extends;
}

-- Letters and marks stand apart.
marked-Steady :
    {m n : Machine} {letters : List DeadLetter} {marks : List String}
    → Steady m n
    → Steady m (record n { letters = letters; stalled = marks })
marked-Steady h = record {
  cursor = h.cursor;
  checkpoint = h.checkpoint;
  tallies = h.tallies;
  trace = h.trace;
  extends = h.extends;
}

module _ (env : Environment) where
  pub call-Steady : (m : Machine) → Steady m (call env m)
  unfolding call
  call-Steady m = record {
    cursor = refl;
    checkpoint = refl;
    tallies = refl;
    trace = refl;
    extends = arrive-Extends (env.arrivals m.tick) m.log;
  }

  append_rows-Steady : (p : PendingAppend) (m : Machine) → Steady m (append_rows env p m).1
  unfolding append_rows
  append_rows-Steady p m = elim (Bool-cases (env.faults m.tick)) [
    | inl fault ↦ rw fault (call-Steady m)
    | inr kept ↦
        elim (Bool-cases
          (length (read_stream p.import_id (call env m).log) == p.expected_version)) [
            | inl same ↦
                rw (kept, same)
                  (Steady-trans (call-Steady m) (record {
                    cursor = refl;
                    checkpoint = refl;
                    tallies = refl;
                    trace = refl;
                    extends = insert_rows-Extends p.import_id p.events (call env m).log;
                  }))
            | inr lost ↦ rw (kept, lost) (call-Steady m)
          ]
  ]

  carry_out-Steady :
      (decided : Result CommandError (Option PendingAppend)) (m : Machine)
      → Steady m (carry_out env decided m).1
  unfolding carry_out
  carry_out-Steady (err e) m = Steady-refl m
  carry_out-Steady (ok none) m = Steady-refl m
  carry_out-Steady (ok (some p)) m = append_rows-Steady p m

  apply_command-Steady :
      (id : String) (command : ImportCommand) (m : Machine)
      → Steady m (apply_command env id command m).1
  unfolding apply_command
  apply_command-Steady id command m = Steady-trans (call-Steady m) (
      carry_out-Steady
        (load_and_decide (not (env.faults m.tick)) (store_of (call env m).log) id command)
        (call env m))

  answered-Steady :
      (id : String) (answer : Option ImportCommand) (m : Machine)
      → Steady m (answered env id answer m).1
  unfolding answered
  answered-Steady id none m = Steady-refl m
  answered-Steady id (some command) m = apply_command-Steady id command m

  pub interpret_effect-Steady :
      (id : String) (effect : Effect) (m : Machine) → Steady m (interpret_effect env id effect m).1
  unfolding interpret_effect
  interpret_effect-Steady id effect m =
      Steady-trans (call-Steady m) (answered-Steady id (ask env m.tick effect) (call env m))

  clear_stalled-Steady : (id : String) (m : Machine) → Steady m (clear_stalled env id m)
  unfolding clear_stalled
  clear_stalled-Steady id m = elim (Bool-cases (env.faults m.tick)) [
    | inl fault ↦ rw fault (call-Steady m)
    | inr cleared ↦ rw cleared (marked-Steady (call-Steady m))
  ]

  pub resolve_stalled-Steady :
      (id : String) (was_stalled dead : Bool) (m : Machine)
      → Steady m (resolve_stalled env id was_stalled dead m)
  unfolding resolve_stalled
  resolve_stalled-Steady id true false m = clear_stalled-Steady id m
  resolve_stalled-Steady id true true m = Steady-refl m
  resolve_stalled-Steady id false dead m = Steady-refl m

  pruned-Steady : (horizon : ℕ) (m : Machine) → Steady m (pruned env horizon m)
  unfolding pruned
  pruned-Steady horizon m = elim (Bool-cases (env.faults m.tick)) [
    | inl fault ↦ rw fault (call-Steady m)
    | inr kept ↦ rw kept (marked-Steady (call-Steady m))
  ]

  pub seed_stalled-Steady : (horizon : ℕ) (m : Machine) → Steady m (seed_stalled env horizon m)
  unfolding seed_stalled
  seed_stalled-Steady horizon m = elim (Bool-cases (env.faults unmarked.tick)) [
    | inl fault ↦ rw fault listing
    | inr listed ↦ rw listed (marked-Steady listing)
  ]
    where
      unmarked : Machine
      unmarked = record (pruned env horizon m) { stalled = [] }

      listing : Steady m (call env unmarked)
      listing = Steady-trans (marked-Steady (pruned-Steady horizon m)) (call-Steady unmarked)
