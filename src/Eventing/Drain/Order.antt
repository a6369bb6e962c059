-- ===== src/Eventing/Drain/Order.antt =====
-- The checkpoint that is durable, and the way that the cursor moves.
use music_downloader.Prelude.{
  ℕ, zero, suc, ◌≤◌, ◌<◌, ◌≡◌, refl, Bool, true, false, Option, none, some, List, [], ◌∷◌, ltb, leb,
  ◌==◌, if◌then◌else◌, Result, ok, err, arith, Bool-cases, inl, inr,
}
use music_downloader.Eventing.Drain.{
  DrainFailure, transient, permanent, is_permanent, DrainBatch, DrainDependencies, Call, stepped,
  failed, saved, not_saved, Drain, after_call, advance, attempted, consume_from, consume, and_then,
  consume_all, skip_to, handle, drain, unless_halted, run_cycles, poll,
}

-- Where there is a result, it has the property.
abbrev pub OnSome : {A : Type 0} → (A → Type 0) → Option A → Type 0
OnSome P none = Unit
OnSome P (some d) = P d

-- A property that each primitive step keeps is kept by a poll.
module _ {Item World : Type 0} (deps : DrainDependencies Item World) (P : Drain Item World → Type 0)
    (on_read : (d : Drain Item World) → P d → P (record d { world = deps.next d.world }))
    (on_halt : (d : Drain Item World) → P d → P (record d { halted = true }))
    (on_stepped : (item : Item) (d : Drain Item World) → P d → P (after_call deps (stepped item) d))
    (on_failed : (item : Item) (failure : DrainFailure) (d : Drain Item World)
      → P d
      → P (after_call deps (failed item failure) d))
    (on_not_saved : (p : ℕ) (d : Drain Item World) → P d → P (after_call deps (not_saved p) d))
    (on_saved : (p : ℕ) (d : Drain Item World)
      → d.cursor < p
      → P d
      → P (record (after_call deps (saved p) d) { cursor = p })) where
  advance_keeps : (p : ℕ) (d : Drain Item World) → P d → P (advance deps p d).1
  unfolding advance
  advance_keeps p d h = elim (Bool-cases (leb p d.cursor)) [
    | inl behind ↦ rw behind (on_halt d h)
    | inr ahead ↦ elim (Bool-cases (deps.try_save p d.world)) [
      | inl kept ↦ rw (ahead, kept) (on_saved p d (ground arith) h)
      | inr lost ↦ rw (ahead, lost) (on_not_saved p d h)
    ]
  ]

  attempted_keeps :
      (outcome : Result DrainFailure Unit) (item : Item) (d : Drain Item World)
      (retry : Drain Item World → Bool × Drain Item World)
      → ((d' : Drain Item World) → P d' → P (retry d').1)
      → P d
      → P (attempted deps outcome item d retry).1
  unfolding is_permanent
  attempted_keeps (ok done) item d retry keeps h =
      advance_keeps (deps.position_of item) (after_call deps (stepped item) d) (on_stepped item d h)
  attempted_keeps (err permanent) item d retry keeps h = on_halt _ (on_failed item permanent d h)
  attempted_keeps (err transient) item d retry keeps h = keeps _ (on_failed item transient d h)

  consume_keeps :
      (left : ℕ) (item : Item) (d : Drain Item World) → P d → P (consume_from deps left item d).1
  unfolding consume_from
  consume_keeps zero item d h = h
  consume_keeps (suc left) item d h =
      attempted_keeps (deps.try_step item d.world) item d (λ d'. consume_from deps left item d')
        (λ d' h'. consume_keeps left item d' h') h

  and_then_keeps :
      (r : Bool × Drain Item World) (go : Drain Item World → Bool × Drain Item World)
      → ((d' : Drain Item World) → P d' → P (go d').1)
      → P r.1
      → P (and_then deps r go (λ d'. (false, d'))).1
  and_then_keeps (true, d) go keeps h = keeps d h
  and_then_keeps (false, d) go keeps h = h

  consume_all_keeps :
      (items : List Item) (d : Drain Item World) → P d → P (consume_all deps items d).1
  unfolding consume_all consume
  consume_all_keeps [] d h = h
  consume_all_keeps (item ∷ items) d h =
      and_then_keeps (consume deps item d) (λ d'. consume_all deps items d')
        (λ d' h'. consume_all_keeps items d' h') (consume_keeps deps.attempts item d h)

  skip_to_keeps : (p : ℕ) (d : Drain Item World) → P d → P (skip_to deps p d).1
  unfolding skip_to
  skip_to_keeps p d h = elim (Bool-cases (ltb d.cursor p)) [
    | inl ahead ↦ rw ahead (advance_keeps p d h)
    | inr scanned ↦ rw scanned h
  ]

  and_then-OnSome :
      (r : Bool × Drain Item World) (go : Drain Item World → Option (Drain Item World))
      → ((d' : Drain Item World) → P d' → OnSome P (go d'))
      → P r.1
      → OnSome P (and_then deps r go (λ d'. some d'))
  and_then-OnSome (true, d) go keeps h = keeps d h
  and_then-OnSome (false, d) go keeps h = h

  settled-OnSome :
      (b : Bool) (d : Drain Item World) (again : Option (Drain Item World))
      → P d
      → OnSome P again
      → OnSome P (if b then some d else again)
  settled-OnSome true d again h k = h
  settled-OnSome false d again h k = k

  handle_keeps :
      (answer : Result DrainFailure (DrainBatch Item)) (d : Drain Item World)
      (again : Drain Item World → Option (Drain Item World))
      → ((d' : Drain Item World) → P d' → OnSome P (again d'))
      → P d
      → OnSome P (handle deps answer d again)
  unfolding is_permanent
  handle_keeps (err permanent) d again keeps h = on_halt d h
  handle_keeps (err transient) d again keeps h = h
  handle_keeps (ok batch) d again keeps h =
      and_then-OnSome (consume_all deps batch.items d) _
        (λ d' h'.
          and_then-OnSome (skip_to deps batch.scanned_to d') _
            (λ d'' h''. settled-OnSome (d''.cursor == d.cursor) d'' (again d'') h'' (keeps d'' h''))
            (skip_to_keeps batch.scanned_to d' h'))
        (consume_all_keeps batch.items d h)

  drain_keeps : (fuel : ℕ) (d : Drain Item World) → P d → OnSome P (drain deps fuel d)
  unfolding drain
  drain_keeps zero d h = tt
  drain_keeps (suc fuel) d h =
      handle_keeps (deps.read d.cursor deps.batch_size d.world) _ (λ d'. drain deps fuel d')
        (λ d' h'. drain_keeps fuel d' h') (on_read d h)

  unless_halted-OnSome :
      (r : Option (Drain Item World)) (again : Drain Item World → Option (Drain Item World))
      → ((d' : Drain Item World) → P d' → OnSome P (again d'))
      → OnSome P r
      → OnSome P (unless_halted deps r again)
  unless_halted-OnSome none again keeps h = tt
  unless_halted-OnSome (some d) again keeps h = settled-OnSome d.halted d (again d) h (keeps d h)

  run_cycles_keeps :
      (fuel wakeups : ℕ) (d : Drain Item World) → P d → OnSome P (run_cycles deps fuel wakeups d)
  unfolding run_cycles
  run_cycles_keeps fuel zero d h = drain_keeps fuel d h
  run_cycles_keeps fuel (suc wakeups) d h =
      unless_halted-OnSome (drain deps fuel d) (λ d'. run_cycles deps fuel wakeups d')
        (λ d' h'. run_cycles_keeps fuel wakeups d' h') (drain_keeps fuel d h)

  pub poll_keeps :
      (fuel wakeups : ℕ) (d : Drain Item World) → P d → OnSome P (poll deps fuel wakeups d)
  unfolding poll
  poll_keeps fuel wakeups d h =
      settled-OnSome d.halted d (run_cycles deps fuel wakeups d) h
        (run_cycles_keeps fuel wakeups d h)

module _ {Item : Type 0} where
  -- The checkpoint that the store holds after the calls, by the one it held before them.
  abbrev pub checkpoint_after : ℕ → List (Call Item) → ℕ
  checkpoint_after held [] = held
  checkpoint_after held (saved p ∷ calls) = p
  checkpoint_after held (call ∷ calls) = checkpoint_after held calls

module _ {Item World : Type 0} (deps : DrainDependencies Item World) where
  -- The store holds the cursor.
  abbrev pub IsDurable : ℕ → Drain Item World → Type 0
  IsDurable held d = checkpoint_after held d.trace ≡ d.cursor

  -- From a cursor that the store holds, a poll leaves a cursor that the store holds, at or past the
  -- earlier one.
  pub poll_keeps_checkpoint :
      (fuel wakeups held : ℕ) (d : Drain Item World)
      → IsDurable held d
      → OnSome (λ d'. IsDurable held d' × (d.cursor ≤ d'.cursor)) (poll deps fuel wakeups d)
  poll_keeps_checkpoint fuel wakeups held d h =
      poll_keeps deps (λ d'. IsDurable held d' × (d.cursor ≤ d'.cursor)) (λ d' k. k) (λ d' k. k)
        (λ item d' k. k) (λ item failure d' k. k) (λ p d' k. k)
        (λ p d' ahead k. (refl, omega (arith, k.1))) fuel wakeups d (h, omega arith)
