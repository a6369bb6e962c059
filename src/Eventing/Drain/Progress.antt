-- ===== src/Eventing/Drain/Progress.antt =====
-- A poll of a feed that ends comes to an end.
use music_downloader.Prelude.{
  ℕ, zero, suc, ◌+◌, ◌≤◌, ◌<◌, ◌≡◌, refl, Bool, true, false, Option, none, some, List, [], ◌∷◌, ltb,
  leb, ◌==◌, if◌then◌else◌, Result, ok, err, arith, Bool-cases, inl, inr, ◌⊎◌, All,
}
use music_downloader.Eventing.Drain.Order.{OnSome}
use music_downloader.Eventing.Drain.{
  DrainFailure, transient, permanent, is_permanent, DrainBatch, DrainDependencies, stepped, Drain,
  after_call, advance, attempted, consume_from, consume, and_then, consume_all, skip_to, handle,
  drain, unless_halted, run_cycles, poll,
}

module _ {Item World : Type 0} (deps : DrainDependencies Item World) where
  abbrev pub IsBelow : ℕ → Result DrainFailure (DrainBatch Item) → Type 0
  IsBelow head (err failure) = Unit
  IsBelow head (ok batch) =
      All (λ item. deps.position_of item ≤ head) batch.items × (batch.scanned_to ≤ head)

  -- A feed that ends: no read answers with a position past the head.
  abbrev pub EndsAt : ℕ → Type 0
  EndsAt head = (from limit : ℕ) (w : World) → IsBelow head (deps.read from limit w)

  -- The cursor is where it was, or moved on and is not past the head.
  abbrev Moves : ℕ → ℕ → Drain Item World → Type 0
  Moves head from d = (from ≤ d.cursor) × ((d.cursor ≡ from) ⊎ (d.cursor ≤ head))

  advance-Moves :
      (head from p : ℕ) (d : Drain Item World)
      → p ≤ head
      → Moves head from d
      → Moves head from (advance deps p d).1
  unfolding advance
  advance-Moves head from p d reach h = elim (Bool-cases (leb p d.cursor)) [
    | inl behind ↦ rw behind h
    | inr ahead ↦ elim (Bool-cases (deps.try_save p d.world)) [
      | inl kept ↦ rw (ahead, kept) (ground (arith, h.0), inr reach)
      | inr lost ↦ rw (ahead, lost) h
    ]
  ]

  attempted-Moves :
      (head from : ℕ) (outcome : Result DrainFailure Unit) (item : Item) (d : Drain Item World)
      (retry : Drain Item World → Bool × Drain Item World)
      → deps.position_of item ≤ head
      → ((d' : Drain Item World) → Moves head from d' → Moves head from (retry d').1)
      → Moves head from d
      → Moves head from (attempted deps outcome item d retry).1
  unfolding is_permanent
  attempted-Moves head from (ok done) item d retry reach keeps h =
      advance-Moves head from (deps.position_of item) (after_call deps (stepped item) d) reach h
  attempted-Moves head from (err permanent) item d retry reach keeps h = h
  attempted-Moves head from (err transient) item d retry reach keeps h = keeps _ h

  consume_from-Moves :
      (head from left : ℕ) (item : Item) (d : Drain Item World)
      → deps.position_of item ≤ head
      → Moves head from d
      → Moves head from (consume_from deps left item d).1
  unfolding consume_from
  consume_from-Moves head from zero item d reach h = h
  consume_from-Moves head from (suc left) item d reach h =
      attempted-Moves head from (deps.try_step item d.world) item d
        (λ d'. consume_from deps left item d') reach
        (λ d' h'. consume_from-Moves head from left item d' reach h') h

  and_then-Moves :
      (head from : ℕ) (r : Bool × Drain Item World)
      (go : Drain Item World → Bool × Drain Item World)
      → ((d' : Drain Item World) → Moves head from d' → Moves head from (go d').1)
      → Moves head from r.1
      → Moves head from (and_then deps r go (λ d'. (false, d'))).1
  and_then-Moves head from (true, d) go keeps h = keeps d h
  and_then-Moves head from (false, d) go keeps h = h

  consume_all-Moves :
      (head from : ℕ) (items : List Item) (d : Drain Item World)
      → All (λ item. deps.position_of item ≤ head) items
      → Moves head from d
      → Moves head from (consume_all deps items d).1
  unfolding consume_all consume
  consume_all-Moves head from [] d reach h = h
  consume_all-Moves head from (item ∷ items) d reach h =
      and_then-Moves head from (consume deps item d) (λ d'. consume_all deps items d')
        (λ d' h'. consume_all-Moves head from items d' reach.1 h')
        (consume_from-Moves head from deps.attempts item d reach.0 h)

  skip_to-Moves :
      (head from p : ℕ) (d : Drain Item World)
      → p ≤ head
      → Moves head from d
      → Moves head from (skip_to deps p d).1
  unfolding skip_to
  skip_to-Moves head from p d reach h = elim (Bool-cases (ltb d.cursor p)) [
    | inl ahead ↦ rw ahead (advance-Moves head from p d reach h)
    | inr scanned ↦ rw scanned h
  ]

  -- There is a result.
  abbrev pub Ends : Option (Drain Item World) → Type 0
  Ends none = ⊥
  Ends (some d) = Unit

  and_then-Ends :
      (head from : ℕ) (r : Bool × Drain Item World)
      (go : Drain Item World → Option (Drain Item World))
      → ((d' : Drain Item World) → Moves head from d' → Ends (go d'))
      → Moves head from r.1
      → Ends (and_then deps r go (λ d'. some d'))
  and_then-Ends head from (true, d) go keeps h = keeps d h
  and_then-Ends head from (false, d) go keeps h = tt

  settled-Ends :
      (b : Bool) (d : Drain Item World) (again : Option (Drain Item World))
      → (b ≡ false → Ends again)
      → Ends (if b then some d else again)
  settled-Ends true d again k = tt
  settled-Ends false d again k = k refl

  reached : (head from c : ℕ) → (c ≡ from) ⊎ (c ≤ head) → (c == from) ≡ false → c ≤ head
  reached head from c (inl same) moved = ground (arith, same, moved)
  reached head from c (inr below) moved = below

  handle-Ends :
      (head : ℕ) (answer : Result DrainFailure (DrainBatch Item)) (d : Drain Item World)
      (again : Drain Item World → Option (Drain Item World))
      → IsBelow head answer
      → ((d' : Drain Item World) → d.cursor < d'.cursor → d'.cursor ≤ head → Ends (again d'))
      → Ends (handle deps answer d again)
  handle-Ends head (err failure) d again reach keeps = tt
  handle-Ends head (ok batch) d again reach keeps =
      and_then-Ends head d.cursor (consume_all deps batch.items d) _
        (λ d' h'.
          and_then-Ends head d.cursor (skip_to deps batch.scanned_to d') _
            (λ d'' h''. settled-Ends (d''.cursor == d.cursor) d'' (again d'') (λ moved.
              keeps d'' (ground (arith, h''.0)) (reached head d.cursor d''.cursor h''.1 moved)))
            (skip_to-Moves head d.cursor batch.scanned_to d' reach.1 h'))
        (consume_all-Moves head d.cursor batch.items d reach.0 (omega arith, inl refl))

  drain-Ends :
      (head fuel : ℕ) (d : Drain Item World)
      → EndsAt head
      → head < fuel + d.cursor
      → 1 ≤ fuel
      → Ends (drain deps fuel d)
  unfolding drain
  drain-Ends head zero d ends enough some_fuel = absurd (omega arith)
  drain-Ends head (suc fuel) d ends enough some_fuel =
      handle-Ends head (deps.read d.cursor deps.batch_size d.world) _ (λ d'. drain deps fuel d')
        (ends d.cursor deps.batch_size d.world)
        (λ d' past below. drain-Ends head fuel d' ends (omega arith) (omega arith))

  unless_halted-Ends :
      (r : Option (Drain Item World)) (again : Drain Item World → Option (Drain Item World))
      → Ends r
      → ((d : Drain Item World) → Ends (again d))
      → Ends (unless_halted deps r again)
  unless_halted-Ends none again h keeps = h
  unless_halted-Ends (some d) again h keeps = settled-Ends d.halted d (again d) (λ e. keeps d)

  run_cycles-Ends :
      (head wakeups : ℕ) (d : Drain Item World)
      → EndsAt head
      → Ends (run_cycles deps (suc head) wakeups d)
  unfolding run_cycles
  run_cycles-Ends head zero d ends = drain-Ends head (suc head) d ends (omega arith) (omega arith)
  run_cycles-Ends head (suc wakeups) d ends =
      unless_halted-Ends (drain deps (suc head) d) (λ d'. run_cycles deps (suc head) wakeups d')
        (drain-Ends head (suc head) d ends (omega arith) (omega arith))
        (λ d'. run_cycles-Ends head wakeups d' ends)

  -- The result of a poll that ends, with what holds of every result.
  pub ended :
      (P Q : Drain Item World → Type 0) (r : Option (Drain Item World))
      → Ends r
      → OnSome P r
      → OnSome Q r
      → (d : Drain Item World) × (r ≡ some d) × P d × Q d
  ended P Q none e p q = absurd e
  ended P Q (some d) e p q = (d, refl, p, q)

  -- With a unit of fuel more than the head of the feed, a poll ends, whichever reads, steps and saves
  -- fail and however often wakeups ask for another pass.
  pub poll-Ends :
      (head wakeups : ℕ) (d : Drain Item World)
      → EndsAt head
      → Ends (poll deps (suc head) wakeups d)
  unfolding poll
  poll-Ends head wakeups d ends =
      settled-Ends d.halted d (run_cycles deps (suc head) wakeups d)
        (λ e. run_cycles-Ends head wakeups d ends)
