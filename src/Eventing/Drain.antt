-- ===== src/Eventing/Drain.antt =====
-- packages/eventing/src/checkpointed-drain.ts
-- The feed, the checkpoint store and the step are the consumer's: each call answers with a result and
-- the world after it. `trace` holds the calls that the drain made, the latest first, with their
-- answers. Logging and sleeping are left out, and operations run one at a time, as the drain's own
-- barriers arrange.
pub mod Feed
pub mod Order
pub mod Consuming
pub mod Delivery
pub mod Progress
pub mod Polls
pub mod Healthy
use music_downloader.Prelude.{
  ℕ, zero, suc, ◌-◌, ◌+◌, Bool, true, false, ◌&&◌, not, Option, none, some, List, [], ◌∷◌, ltb, leb,
  ◌==◌, if◌then◌else◌, Result, ok, err,
}

pub data DrainFailure : Type 0 where
  transient permanent : DrainFailure

unfoldable pub is_permanent : DrainFailure → Bool
is_permanent permanent = true
is_permanent transient = false

pub record DrainBatch (Item : Type 0) : Type 0 where
  pub items : List Item
  pub scanned_to : ℕ

-- What the drain is given. `read` takes the position to read behind and the batch size.
pub record DrainDependencies (Item World : Type 0) : Type 0 where
  pub read : ℕ → ℕ → World → Result DrainFailure (DrainBatch Item)
  pub position_of : Item → ℕ
  pub try_step : Item → World → Result DrainFailure Unit
  pub load : World → Result Unit ℕ
  pub try_save : ℕ → World → Bool
  -- The world after the next call.
  pub next : World → World
  pub attempts : ℕ
  pub batch_size : ℕ

pub data Call (Item : Type 0) : Type 0 where
  stepped : Item → Call Item
  failed : Item → DrainFailure → Call Item
  saved : ℕ → Call Item
  not_saved : ℕ → Call Item

pub record Drain (Item World : Type 0) : Type 0 where
  pub cursor : ℕ
  pub halted : Bool
  pub world : World
  pub trace : List (Call Item)

module _ {Item World : Type 0} (deps : DrainDependencies Item World) where
  -- The world moves on, and the call is traced.
  abbrev pub after_call : Call Item → Drain Item World → Drain Item World
  after_call call d = record d { world = deps.next d.world; trace = call ∷ d.trace }

  -- The flag says whether the drain may continue.
  unfoldable pub advance : ℕ → Drain Item World → Bool × Drain Item World
  advance to_position d =
      if leb to_position d.cursor
      then (false, record d { halted = true })
      else if deps.try_save to_position d.world
      then (true, record (after_call (saved to_position) d) { cursor = to_position })
      else (false, after_call (not_saved to_position) d)

  abbrev pub poison : Drain Item World → Bool × Drain Item World
  poison d = (false, record d { halted = true })

  -- What an attempt does: a success advances, a permanent failure halts, a transient one goes on to
  -- the attempts that are left.
  abbrev pub attempted :
      Result DrainFailure Unit
      → Item
      → Drain Item World
      → (Drain Item World → Bool × Drain Item World)
      → Bool × Drain Item World
  attempted (ok done) item d retry = advance (deps.position_of item) (after_call (stepped item) d)
  attempted (err failure) item d retry =
      if is_permanent failure
      then poison (after_call (failed item failure) d)
      else retry (after_call (failed item failure) d)

  unfoldable pub consume_from : ℕ → Item → Drain Item World → Bool × Drain Item World
  unfolding advance is_permanent
  consume_from zero item d = (false, d)
  consume_from (suc left) item d =
      attempted (deps.try_step item d.world) item d (λ d'. consume_from left item d')

  unfoldable pub consume : Item → Drain Item World → Bool × Drain Item World
  unfolding consume_from
  consume item d = consume_from deps.attempts item d

  -- On where the drain may, to a result.
  abbrev pub and_then {ℓ} :
      {A : Type ℓ} → Bool × Drain Item World → (Drain Item World → A) → (Drain Item World → A) → A
  and_then (true, d) go stop = go d
  and_then (false, d) go stop = stop d

  -- The loop over the items of a batch.
  unfoldable pub consume_all : List Item → Drain Item World → Bool × Drain Item World
  unfolding consume
  consume_all [] d = (true, d)
  consume_all (item ∷ items) d =
      and_then (consume item d) (λ d'. consume_all items d') (λ d'. (false, d'))

  -- The positions that a batch examined and that hold no item.
  unfoldable pub skip_to : ℕ → Drain Item World → Bool × Drain Item World
  unfolding advance
  skip_to scanned_to d = if ltb d.cursor scanned_to then advance scanned_to d else (true, d)

  abbrev pub fail_read : DrainFailure → Drain Item World → Drain Item World
  fail_read failure d = if is_permanent failure then record d { halted = true } else d

  abbrev pub handle :
      Result DrainFailure (DrainBatch Item)
      → Drain Item World
      → (Drain Item World → Option (Drain Item World))
      → Option (Drain Item World)
  handle (err failure) d again = some (fail_read failure d)
  handle (ok batch) d again =
      and_then (consume_all batch.items d)
        (λ d'.
          and_then (skip_to batch.scanned_to d')
            (λ d''. if d''.cursor == d.cursor then some d'' else again d'') (λ d''. some d''))
        (λ d'. some d')

  -- A batch for each unit of fuel; `none` where the fuel is spent before the feed is.
  unfoldable pub drain : ℕ → Drain Item World → Option (Drain Item World)
  unfolding consume_all skip_to is_permanent
  drain zero d = none
  drain (suc fuel) d =
      handle (deps.read d.cursor deps.batch_size d.world) (record d { world = deps.next d.world })
        (λ d'. drain fuel d')

  abbrev pub unless_halted :
      Option (Drain Item World)
      → (Drain Item World → Option (Drain Item World))
      → Option (Drain Item World)
  unless_halted none again = none
  unless_halted (some d) again = if d.halted then some d else again d

  -- `wakeups` counts the passes that wakeups ask for while the cycles run.
  unfoldable pub run_cycles : ℕ → ℕ → Drain Item World → Option (Drain Item World)
  unfolding drain
  run_cycles fuel zero d = drain fuel d
  run_cycles fuel (suc wakeups) d = unless_halted (drain fuel d) (λ d'. run_cycles fuel wakeups d')

  unfoldable pub poll : ℕ → ℕ → Drain Item World → Option (Drain Item World)
  unfolding run_cycles
  poll fuel wakeups d = if d.halted then some d else run_cycles fuel wakeups d

  abbrev pub loaded : Result Unit ℕ → Drain Item World → Drain Item World
  loaded (err e) d = record d { halted = true }
  loaded (ok checkpoint) d = record d { cursor = checkpoint }

  unfoldable pub start : ℕ → ℕ → Drain Item World → Option (Drain Item World)
  unfolding poll
  start fuel wakeups d =
      poll fuel wakeups (loaded (deps.load d.world) (record d { world = deps.next d.world }))

  -- The flag says whether the replay is armed.
  unfoldable pub reset : ℕ → Drain Item World → Bool × Drain Item World
  reset to_position d =
      if deps.try_save to_position d.world
      then (
        true,
        record (after_call (saved to_position) d) { cursor = to_position; halted = false },
      )
      else (false, after_call (not_saved to_position) d)
