-- ===== src/Downloader/Reactor/Startup.antt =====
-- packages/downloader/src/application/download/reactor.ts: `start` and the re-drive.
use music_downloader.Prelude.{
  ℕ, any, Option, none, some, List, [], ◌∷◌, String, str_eq, map, if◌then◌else◌, is_empty,
}
use music_downloader.Downloader.Download.State.{is_terminal, fold_events}
use music_downloader.Downloader.Download.Aggregate.{react_to}
use music_downloader.Downloader.Log.{StoredEvent, read_stream}
use music_downloader.Downloader.Machine.{ParkedEffect, Environment, Machine, call, find_park}
use music_downloader.Downloader.Lander.{is_stalled, seed_stalled}
use music_downloader.Downloader.Reactor.{DispatchOutcome, dispatch_event, park_stream}
use music_downloader.Downloader.Reactor.Scheduler.{drain_round}

abbrev pub last_of : List StoredEvent → Option StoredEvent
last_of [] = none
last_of (s ∷ []) = some s
last_of (s ∷ t ∷ ss) = last_of (t ∷ ss)

-- The streams of a log, each where it first occurs; `seen` are those that came before.
abbrev pub streams_from : List String → List StoredEvent → List String
streams_from seen [] = []
streams_from seen (s ∷ ss) =
    let rest = streams_from (s.stream_id ∷ seen) ss in
    let skipped = streams_from seen ss in
    if any (λ id. str_eq id s.stream_id) seen then skipped else s.stream_id ∷ rest

-- A process boots, drains in rounds, and re-drives once; it may end at any point.
pub data Action : Type 0 where
  boots : (horizon : ℕ) → Action
  drains : Action
  redrives : Action

module _ (env : Environment) where
  unfoldable pub redriven : StoredEvent → DispatchOutcome × Machine → Machine
  unfolding park_stream
  redriven s (some effect, m) = (park_stream env s effect m).1
  redriven s (none, m) = m

  -- The last event of a stream that no park holds and that is not over.
  unfoldable pub redrive_last : List StoredEvent → Option StoredEvent → Machine → Machine
  unfolding redriven dispatch_event react_to
  redrive_last events none m = m
  redrive_last events (some s) m =
      if is_empty (react_to (map (λ e. e.event) events) s.event)
      then m
      else redriven s (dispatch_event env s events m)

  unfoldable pub redrive_found : List StoredEvent → Option ParkedEffect → Machine → Machine
  unfolding redrive_last fold_events
  redrive_found events (some entry) m = m
  redrive_found events none m =
      if is_terminal (fold_events (map (λ e. e.event) events))
      then m
      else redrive_last events (last_of events) m

  -- `redriveStream`
  unfoldable pub redrive_stream : String → List StoredEvent → Machine → Machine
  unfolding redrive_found call
  redrive_stream id events m =
      let m' = call env m in
      if is_stalled id m.stalled
      then m
      else if env.faults m.tick
      then m'
      else redrive_found events (find_park id m'.parks) m'

  unfoldable pub redrive_all : List StoredEvent → List String → Machine → Machine
  unfolding redrive_stream
  redrive_all log [] m = m
  redrive_all log (id ∷ ids) m = redrive_all log ids (redrive_stream id (read_stream id log) m)

  unfoldable pub redrive : Machine → Machine
  unfolding redrive_all call
  redrive m =
      let m' = call env m in
      if env.faults m.tick then m' else redrive_all m'.log (streams_from [] m'.log) m'

  -- What a new process starts from: the cursor is the checkpoint, or 0 if that cannot be read.
  unfoldable pub boot : ℕ → Machine → Machine
  unfolding seed_stalled call
  boot horizon m =
      let seeded = seed_stalled env horizon m in
      let m' = call env seeded in
      record m' { cursor = if env.faults seeded.tick then 0 else m'.checkpoint }

  unfoldable pub act : Action → Machine → Machine
  unfolding boot drain_round redrive
  act (boots horizon) m = boot horizon m
  act drains m = drain_round env m
  act redrives m = redrive m

  unfoldable pub act_all : List Action → Machine → Machine
  unfolding act
  act_all [] m = m
  act_all (a ∷ actions) m = act_all actions (act a m)
