-- ===== src/Importer/Reactor/Running.antt =====
-- packages/importer/src/application/import/reactor.ts: `drain` and `start`, and the seeding of the
-- stalled imports in packages/importer/src/application/projections/read-models.ts
-- A drain that is woken while it runs drains once more, which is one more drain here.
use music_downloader.Prelude.{ℕ, List, [], ◌∷◌, String, ltb, leb, filter, if◌then◌else◌}
use music_downloader.Eventing.Log.{read_all}
use music_downloader.Importer.Machine.{StoredEvent, DeadLetter, Environment, Machine, call}
use music_downloader.Importer.Reactor.{mark_stalled, process}

abbrev pub mark_all : List DeadLetter → List String → List String
mark_all [] ids = ids
mark_all (l ∷ ls) ids = mark_all ls (mark_stalled l.stream_id ids)

-- A process boots and drains; it may end after any of this.
pub data Action : Type 0 where
  boots : (horizon : ℕ) → Action
  drains : Action

module _ (env : Environment) where
  -- The loop over the backlog stops at an event that the cursor did not pass.
  unfoldable pub process_all : List StoredEvent → Machine → Machine
  unfolding process
  process_all [] m = m
  process_all (s ∷ ss) m =
      let m' = process env s m in
      let rest = process_all ss m' in if ltb m'.cursor s.global_seq then m' else rest

  -- A pass of `drain`.
  unfoldable pub drain : Machine → Machine
  unfolding process_all call
  drain m =
      let m' = call env m in
      if env.faults m.tick then m' else process_all (read_all m.cursor m'.log) m'

  -- `seedStalledReadModel`, at a boot: old letters are pruned, and the streams of the others marked.
  unfoldable pub pruned : ℕ → Machine → Machine
  unfolding call
  pruned horizon m =
      let m' = call env m in
      if env.faults m.tick
      then m'
      else record m' { letters = filter (λ l. leb horizon l.occurred_at) m'.letters }

  unfoldable pub seed_stalled : ℕ → Machine → Machine
  unfolding pruned call
  seed_stalled horizon m =
      let m' = record (pruned horizon m) { stalled = [] } in
      let m'' = call env m' in
      if env.faults m'.tick then m'' else record m'' { stalled = mark_all m''.letters [] }

  -- What a new process starts from: the cursor is the checkpoint, or 0 if that cannot be read.
  unfoldable pub boot : ℕ → Machine → Machine
  unfolding seed_stalled call
  boot horizon m =
      let seeded = seed_stalled horizon m in
      let m' = call env seeded in
      record m' { cursor = if env.faults seeded.tick then 0 else m'.checkpoint }

  unfoldable pub act : Action → Machine → Machine
  unfolding boot drain
  act (boots horizon) m = boot horizon m
  act drains m = drain m

  unfoldable pub act_all : List Action → Machine → Machine
  unfolding act
  act_all [] m = m
  act_all (a ∷ actions) m = act_all actions (act a m)

-- A machine before its first boot.
abbrev pub new_machine : Machine
new_machine = record {
  tick = 0;
  log = [];
  cursor = 0;
  checkpoint = 0;
  tallies = [];
  letters = [];
  stalled = [];
  trace = [];
}
