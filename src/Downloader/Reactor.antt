-- ===== src/Downloader/Reactor.antt =====
-- packages/downloader/src/application/download/reactor.ts
-- Work on the dispatch mutex runs one piece at a time; logging, jitter and the wait between streams
-- are left out.
pub mod Scheduler
pub mod Startup
pub mod Steady
pub mod Invariant
pub mod Dispatching
pub mod Parking
pub mod Passes
pub mod Passing
pub mod CatchingUp
pub mod Clearing
pub mod Resuming
pub mod Rereading
pub mod Retrying
pub mod Redriving
pub mod Lossless
use music_downloader.Prelude.{
  ℕ, ◌+◌, ◌-◌, Bool, true, false, not, ◌&&◌, Option, none, some, List, [], ◌∷◌, ◌++◌, String,
  str_eq, ltb, leb, ◌==◌, filter, map, Result, ok, err, if◌then◌else◌, is_empty,
}
use music_downloader.Sorting.{to_sorted, difference}
use music_downloader.Downloader.Download.State.{is_terminal, fold_events}
use music_downloader.Downloader.Download.React.{Effect}
use music_downloader.Downloader.Download.Aggregate.{react_to}
use music_downloader.Downloader.Log.{StoredEvent, read_stream, read_all}
use music_downloader.Downloader.Retry.{RetrySchedule, retry, exhausted, next_retry}
use music_downloader.Downloader.Machine.{
  ParkedEffect, Record, began, dispatched, landed, Environment, Machine, call, clear_park, park,
  find_park,
}
use music_downloader.Downloader.Handling.{CommandError}
use music_downloader.Downloader.Interpreter.{interpret_effect}
use music_downloader.Downloader.Lander.{
  FailureClass, retryable, permanent, rejection, classify_command_error, is_stalled, land,
  clear_stalled,
}

-- `DispatchOutcome`: the effect that is to be tried again, if any.
abbrev pub DispatchOutcome : Type 0
DispatchOutcome = Option Effect

-- The effects of an event, on the fold of its stream up to it.
unfoldable pub effects_of : StoredEvent → List StoredEvent → List Effect
unfolding react_to
effects_of s stream =
    react_to (map (λ e. e.event) (filter (λ e. leb e.version s.version) stream)) s.event

module _ (env : Environment) where
  abbrev pub after_landing : Effect → Bool × Machine → DispatchOutcome × Machine
  after_landing effect (true, m) = (none, m)
  after_landing effect (false, m) = (some effect, m)

  -- `handleEffectError`
  unfoldable pub handle_effect_error :
      StoredEvent → Effect → FailureClass → Machine → DispatchOutcome × Machine
  unfolding land
  handle_effect_error s effect permanent m = after_landing effect (land env s effect 1 m)
  handle_effect_error s effect retryable m = (some effect, m)
  handle_effect_error s effect rejection m = (none, m)

  -- After an effect was interpreted: a failure ends the loop over the effects.
  unfoldable pub after_effect :
      StoredEvent
      → Effect
      → (Machine → DispatchOutcome × Machine)
      → Result CommandError Unit × Machine
      → DispatchOutcome × Machine
  unfolding handle_effect_error
  after_effect s effect rest (ok done, m) = rest m
  after_effect s effect rest (err e, m) = handle_effect_error s effect (classify_command_error e) m

  unfoldable pub dispatch_effects : StoredEvent → List Effect → Machine → DispatchOutcome × Machine
  unfolding after_effect interpret_effect
  dispatch_effects s [] m = (none, m)
  dispatch_effects s (effect ∷ effects) m =
      after_effect s effect (dispatch_effects s effects) (interpret_effect env s.stream_id effect m)

  abbrev pub noted : Record → Machine → Machine
  noted entry m = record m { trace = entry ∷ m.trace }

  abbrev pub when_dispatched : StoredEvent → DispatchOutcome × Machine → DispatchOutcome × Machine
  when_dispatched s (none, m) = (none, noted (dispatched s) m)
  when_dispatched s (some effect, m) = (some effect, m)

  unfoldable pub dispatch_event :
      StoredEvent → List StoredEvent → Machine → DispatchOutcome × Machine
  unfolding effects_of dispatch_effects
  dispatch_event s stream m =
      when_dispatched s (dispatch_effects s (effects_of s stream) (noted (began s) m))

  abbrev pub when_landed : StoredEvent → Bool × Machine → Bool × Machine
  when_landed s (true, m) = (true, noted (landed s) m)
  when_landed s (false, m) = (false, m)

  -- `parked.park`
  unfoldable pub write_park : ParkedEffect → Machine → Bool × Machine
  unfolding call
  write_park entry m =
      let m' = call env m in
      if env.faults m.tick then (false, m') else (true, record m' { parks = park entry m'.parks })

  unfoldable pub scheduled_park :
      StoredEvent → Effect → ℕ → RetrySchedule → Machine → Bool × Machine
  unfolding write_park land
  scheduled_park s effect now exhausted m = when_landed s (land env s effect 1 m)
  scheduled_park s effect now (retry at) m =
      write_park
        (record {
          stream_id = s.stream_id;
          global_seq = s.global_seq;
          attempt = 1;
          parked_at = now;
          next_retry_at = at;
        })
        m

  unfoldable pub park_stream : StoredEvent → Effect → Machine → Bool × Machine
  unfolding scheduled_park next_retry
  park_stream s effect m =
      let now = env.now m.tick in
      scheduled_park s effect now (next_retry env.policy 1 now now (env.random m.tick)) m

  -- `advanceTo`: the cursor moves whether or not the checkpoint is saved.
  unfoldable pub advance_to : ℕ → Machine → Machine
  unfolding call
  advance_to seq m =
      let m' = call env (record m { cursor = seq }) in
      if env.faults m.tick then m' else record m' { checkpoint = seq }

  -- `clearPark`
  unfoldable pub remove_park : String → Machine → Machine
  unfolding call
  remove_park id m =
      let m' = call env m in
      if env.faults m.tick then m' else record m' { parks = clear_park id m'.parks }

  -- What `process` does with the outcome of a dispatch.
  unfoldable pub parked_then_advanced : StoredEvent → Bool × Machine → Machine
  unfolding advance_to
  parked_then_advanced s (true, m) = advance_to s.global_seq m
  parked_then_advanced s (false, m) = m

  unfoldable pub processed : StoredEvent → Bool → DispatchOutcome × Machine → Machine
  unfolding parked_then_advanced park_stream advance_to clear_stalled
  processed s was_stalled (some effect, m) = parked_then_advanced s (park_stream s effect m)
  processed s true (none, m) = advance_to s.global_seq (clear_stalled env s.stream_id m)
  processed s false (none, m) = advance_to s.global_seq m

  -- `process`, when no park of the stream was found.
  unfoldable pub process_stream : StoredEvent → Machine → Machine
  unfolding processed dispatch_event call
  process_stream s m =
      let m' = call env m in
      if env.faults m.tick
      then m'
      else processed s (is_stalled s.stream_id m'.stalled)
          (dispatch_event s (read_stream s.stream_id m'.log) m')

  unfoldable pub process_found : StoredEvent → Option ParkedEffect → Machine → Machine
  unfolding process_stream advance_to
  process_found s (some entry) m = advance_to s.global_seq m
  process_found s none m = process_stream s m

  unfoldable pub process : StoredEvent → Machine → Machine
  unfolding process_found call
  process s m =
      let m' = call env m in
      if leb s.global_seq m.cursor
      then m
      else if env.faults m.tick
      then m'
      else process_found s (find_park s.stream_id m'.parks) m'

  -- The loop over the backlog stops at an event that the cursor did not pass.
  unfoldable pub process_all : List StoredEvent → Machine → Machine
  unfolding process
  process_all [] m = m
  process_all (s ∷ ss) m =
      let m' = process s m in
      let rest = process_all ss m' in if ltb m'.cursor s.global_seq then m' else rest
