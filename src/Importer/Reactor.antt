-- ===== src/Importer/Reactor.antt =====
-- packages/importer/src/application/import/reactor.ts: what is done with an event; and the stalled
-- imports of packages/importer/src/application/projections/read-models.ts. Logging is left out.
pub mod Running
pub mod Steady
pub mod Settled
pub mod Settling
pub mod Standing
pub mod Moving
pub mod Passed
pub mod Tallies
pub mod Trying
pub mod Rising
pub mod Polls
use music_downloader.Prelude.{
  ℕ, ◌+◌, Bool, true, false, not, any, Option, none, some, List, [], ◌∷◌, String, str_eq, ltb, leb,
  ◌==◌, filter, map, Result, ok, err, if◌then◌else◌,
}
use music_downloader.Eventing.Log.{read_stream, read_all}
use music_downloader.Importer.Import.Decide.{
  DomainError, unknown_import, no_open_review, no_retained_copy, cycle_in_flight,
  invalid_resolution, unknown_match,
}
use music_downloader.Importer.Import.React.{Effect}
use music_downloader.Importer.Import.Aggregate.{react_to}
use music_downloader.Importer.Handling.{
  CommandError, domain_error, infra_error, concurrency_conflict,
}
use music_downloader.Importer.Machine.{
  StoredEvent, ParkedEffect, DeadLetter, Record, carried_out, rejected_stale, dead_lettered,
  Environment, Machine, call, clear_tally, park, find_tally, attempt_of, parked_since,
}
use music_downloader.Importer.Interpreter.{interpret_effect}

abbrev is_live_cycle : DomainError → Bool
is_live_cycle cycle_in_flight = true
is_live_cycle unknown_import = false
is_live_cycle no_open_review = false
is_live_cycle no_retained_copy = false
is_live_cycle (invalid_resolution resolution review) = false
is_live_cycle (unknown_match candidate) = false

unfoldable pub is_retryable : CommandError → Bool
is_retryable infra_error = true
is_retryable (concurrency_conflict id version) = true
is_retryable (domain_error e) = is_live_cycle e

-- `StalledReadModel`, as the list of the streams that are marked.
abbrev pub is_stalled : String → List String → Bool
is_stalled id = any λ s. str_eq s id

abbrev pub mark_stalled : String → List String → List String
mark_stalled id ids = if is_stalled id ids then ids else id ∷ ids

-- The table of dead letters: a letter for an event replaces the earlier one.
abbrev pub record_letter : DeadLetter → List DeadLetter → List DeadLetter
record_letter letter letters =
    letter ∷ filter (λ l. not (l.global_seq == letter.global_seq)) letters

-- The effects of an event, on the fold of its stream up to it.
unfoldable pub effects_of : StoredEvent → List StoredEvent → List Effect
unfolding react_to
effects_of s stream =
    react_to (map (λ e. e.event) (filter (λ e. leb e.version s.version) stream)) s.event

-- What the loop over the effects of an event comes to: the event is held at the checkpoint, or all
-- of them are settled, some perhaps by a dead letter.
pub data Outcome : Type 0 where
  held : Outcome
  settled : (is_dead_lettered : Bool) → Outcome

module _ (env : Environment) where
  abbrev pub noted : Record → Machine → Machine
  noted entry m = record m { trace = entry ∷ m.trace }

  -- `parked.park`
  unfoldable pub write_tally : ParkedEffect → Machine → Machine
  unfolding call
  write_tally entry m =
      let m' = call env m in
      if env.faults m.tick then m' else record m' { tallies = park entry m'.tallies }

  -- `deadLetters.record`, and the mark.
  unfoldable pub dead_letter : StoredEvent → Effect → CommandError → Machine → Bool × Machine
  unfolding call
  dead_letter s effect e m =
      let m' = call env m in
      if env.faults m.tick then (false, m') else (
        true,
        noted (dead_lettered s effect) (record m' {
          letters =
              record_letter
                (record {
                  global_seq = s.global_seq;
                  stream_id = s.stream_id;
                  failed = effect;
                  last_error = e;
                  occurred_at = env.now m.tick;
                })
                m'.letters;
          stalled = mark_stalled s.stream_id m'.stalled;
        }),
      )

  -- `handleRetryable`, with the tally that was found. The flag says to go on.
  unfoldable pub spend_attempt :
      StoredEvent → Effect → CommandError → Option ParkedEffect → Machine → Bool × Machine
  unfolding write_tally dead_letter
  spend_attempt s effect e existing m =
      let attempt = attempt_of existing + 1 in
      if ltb attempt env.retry_budget
      then (
        false,
        write_tally
            (record {
              global_seq = s.global_seq;
              stream_id = s.stream_id;
              attempt = attempt;
              parked_at = parked_since (env.now m.tick) existing;
              failed = effect;
              last_error = e;
            })
            m,
      )
      else dead_letter s effect e m

  unfoldable pub handle_retryable : StoredEvent → Effect → CommandError → Machine → Bool × Machine
  unfolding spend_attempt call
  handle_retryable s effect e m =
      let m' = call env m in
      if env.faults m.tick
      then (false, m')
      else spend_attempt s effect e (find_tally s.global_seq m'.tallies) m'

  abbrev pub after_attempt :
      (Bool → Machine → Outcome × Machine) → Bool × Machine → Outcome × Machine
  after_attempt rest (true, m) = rest true m
  after_attempt rest (false, m) = (held, m)

  -- After an effect was interpreted: a retryable failure may end the loop, and nothing else does.
  unfoldable pub after_effect :
      StoredEvent
      → Effect
      → (Bool → Machine → Outcome × Machine)
      → Bool
      → Result CommandError Unit × Machine
      → Outcome × Machine
  unfolding handle_retryable is_retryable
  after_effect s effect rest dead (ok done, m) = rest dead (noted (carried_out s effect) m)
  after_effect s effect rest dead (err e, m) =
      if is_retryable e
      then after_attempt rest (handle_retryable s effect e m)
      else rest dead (noted (rejected_stale s effect) m)

  unfoldable pub dispatch_effects :
      StoredEvent → List Effect → (is_dead_lettered : Bool) → Machine → Outcome × Machine
  unfolding after_effect interpret_effect
  dispatch_effects s [] dead m = (settled dead, m)
  dispatch_effects s (effect ∷ effects) dead m =
      after_effect s effect (dispatch_effects s effects) dead
        (interpret_effect env s.stream_id effect m)

  -- `clearPark`
  unfoldable pub clear_park : ℕ → Machine → Machine
  unfolding call
  clear_park seq m =
      let m' = call env m in
      if env.faults m.tick then m' else record m' { tallies = clear_tally seq m'.tallies }

  unfoldable pub clear_stalled : String → Machine → Machine
  unfolding call
  clear_stalled id m =
      let m' = call env m in
      if env.faults m.tick then m' else record m' {
        letters = filter (λ l. not (str_eq l.stream_id id)) m'.letters;
        stalled = filter (λ s. not (str_eq s id)) m'.stalled;
      }

  -- `if (!isDeadLettered && wasStalled) await this.clearStalled(...)`
  unfoldable pub resolve_stalled : String → (was_stalled dead : Bool) → Machine → Machine
  unfolding clear_stalled
  resolve_stalled id true false m = clear_stalled id m
  resolve_stalled id true true m = m
  resolve_stalled id false dead m = m

  -- The event is past only if the checkpoint is saved.
  unfoldable pub advance : StoredEvent → (was_stalled dead : Bool) → Machine → Machine
  unfolding clear_park resolve_stalled call
  advance s was_stalled dead m =
      let m' = call env m in
      if env.faults m.tick
      then m'
      else record (resolve_stalled s.stream_id was_stalled dead
          (clear_park s.global_seq (record m' { checkpoint = s.global_seq }))) {
            cursor = s.global_seq;
          }

  unfoldable pub finish : StoredEvent → (was_stalled : Bool) → Outcome × Machine → Machine
  unfolding advance
  finish s was_stalled (held, m) = m
  finish s was_stalled (settled dead, m) = advance s was_stalled dead m

  unfoldable pub process : StoredEvent → Machine → Machine
  unfolding finish dispatch_effects effects_of call
  process s m =
      let m' = call env m in
      if leb s.global_seq m.cursor
      then m
      else if env.faults m.tick
      then m'
      else finish s (is_stalled s.stream_id m'.stalled)
          (dispatch_effects s (effects_of s (read_stream s.stream_id m'.log)) false m')
