-- ===== src/Eventing/Drain/Healthy.antt =====
-- A feed whose reads, steps and saves succeed is drained to its end.
use music_downloader.Prelude.{
  ℕ, zero, suc, ◌≤◌, ◌<◌, ◌≡◌, refl, sym, subst, Bool, true, false, Option, none, some, List, [],
  ◌∷◌, ltb, leb, ◌==◌, if◌then◌else◌, Result, ok, err, arith, Bool-cases, inl, inr, All, filter,
}
use music_downloader.Eventing.Drain.{
  DrainFailure, DrainBatch, DrainDependencies, stepped, Drain, after_call, advance, consume_from,
  consume, and_then, consume_all, skip_to, handle, drain, unless_halted, run_cycles, poll,
}
use music_downloader.Eventing.Drain.Order.{OnSome}
use music_downloader.Eventing.Drain.Feed.{
  In, Ascending, filter-Ascending, between, Answers, IsFeedOf, Delivers,
}
use music_downloader.Eventing.Drain.Progress.{EndsAt, ended, poll-Ends}
use music_downloader.Eventing.Drain.Delivery.{poll_skips_nothing}

module _ {Item World : Type 0} (deps : DrainDependencies Item World) where
  -- A read succeeds, and examines some position where an item is left.
  abbrev pub Examines : List Item → ℕ → Result DrainFailure (DrainBatch Item) → Type 0
  Examines log from (err failure) = ⊥
  Examines log from (ok batch) =
      (batch.items ≡ filter (between deps from batch.scanned_to) log)
      × ((item : Item) → In item log → from < deps.position_of item → from < batch.scanned_to)

  -- Nothing fails.
  pub record IsHealthy (log : List Item) : Type 0 where
    pub ascending : Ascending deps.position_of log
    pub reads : (from limit : ℕ) (w : World) → Examines log from (deps.read from limit w)
    pub steps : (item : Item) (w : World) → deps.try_step item w ≡ ok tt
    pub saves : (p : ℕ) (w : World) → deps.try_save p w ≡ true
    pub some_attempt : 1 ≤ deps.attempts

  Examines-Answers :
      (log : List Item) (from : ℕ) (answer : Result DrainFailure (DrainBatch Item))
      → Examines log from answer
      → Answers deps log from answer
  Examines-Answers log from (err failure) e = tt
  Examines-Answers log from (ok batch) e = e.0

  abbrev Continues : Bool × Drain Item World → Type 0
  Continues r = (r.0 ≡ true) × (r.1.halted ≡ false)

  -- No item is left, and the drain is not halted.
  abbrev pub IsDrained : List Item → Drain Item World → Type 0
  IsDrained log d =
      ((item : Item) → In item log → deps.position_of item ≤ d.cursor) × (d.halted ≡ false)

  module _ (log : List Item) (healthy : IsHealthy log) where
    advance-Continues :
        (p : ℕ) (d : Drain Item World)
        → d.cursor < p
        → d.halted ≡ false
        → Continues (advance deps p d) × ((advance deps p d).1.cursor ≡ p)
    unfolding advance
    advance-Continues p d ahead live =
        let beyond : leb p d.cursor ≡ false = ground arith in
        rw (beyond, healthy.saves p d.world) ((refl, live), refl)

    consume_from-Continues :
        (left : ℕ) (item : Item) (d : Drain Item World)
        → 1 ≤ left
        → d.cursor < deps.position_of item
        → d.halted ≡ false
        → Continues (consume_from deps left item d)
          × ((consume_from deps left item d).1.cursor ≡ deps.position_of item)
    unfolding consume_from
    consume_from-Continues zero item d some_left ahead live = absurd (omega arith)
    consume_from-Continues (suc left) item d some_left ahead live =
        rw (healthy.steps item d.world)
          (advance-Continues (deps.position_of item) (after_call deps (stepped item) d) ahead live)

    and_then-Continues :
        (p : ℕ) (r : Bool × Drain Item World) (go : Drain Item World → Bool × Drain Item World)
        → Continues r × (r.1.cursor ≡ p)
        → ((d : Drain Item World) → d.halted ≡ false → d.cursor ≡ p → Continues (go d))
        → Continues (and_then deps r go (λ d. (false, d)))
    and_then-Continues p (true, d) go h keeps = keeps d h.0.1 h.1
    and_then-Continues p (false, d) go h keeps = cc

    consume_all-Continues :
        (items : List Item) (d : Drain Item World)
        → Ascending deps.position_of items
        → All (λ item. d.cursor < deps.position_of item) items
        → d.halted ≡ false
        → Continues (consume_all deps items d)
    unfolding consume_all consume
    consume_all-Continues [] d asc ahead live = (refl, live)
    consume_all-Continues (x ∷ xs) d asc ahead live =
        and_then-Continues (deps.position_of x) (consume deps x d) (λ d'. consume_all deps xs d')
          (consume_from-Continues deps.attempts x d healthy.some_attempt ahead.0 live)
          (λ d' live' at_x.
            consume_all-Continues xs d' asc.1
              (subst (λ c. All (λ y. c < deps.position_of y) xs) (sym at_x) asc.0) live')

    skip_to-Continues :
        (p : ℕ) (d : Drain Item World)
        → d.halted ≡ false
        → Continues (skip_to deps p d) × (p ≤ (skip_to deps p d).1.cursor)
    unfolding skip_to
    skip_to-Continues p d live = elim (Bool-cases (ltb d.cursor p)) [
      | inr scanned ↦ rw scanned ((refl, live), ground arith)
      | inl ahead ↦
          let (continues, at_p) = advance-Continues p d (ground arith) live in
          rw ahead (continues, omega (arith, at_p))
    ]

    and_then-IsDrained :
        (r : Bool × Drain Item World) (go : Drain Item World → Option (Drain Item World))
        (P : Drain Item World → Type 0)
        → Continues r × P r.1
        → ((d : Drain Item World) → d.halted ≡ false → P d → OnSome (IsDrained log) (go d))
        → OnSome (IsDrained log) (and_then deps r go (λ d. some d))
    and_then-IsDrained (true, d) go P h keeps = keeps d h.0.1 h.1
    and_then-IsDrained (false, d) go P h keeps = cc

    settled-IsDrained :
        (b : Bool) (d : Drain Item World) (again : Option (Drain Item World))
        → (b ≡ true → IsDrained log d)
        → OnSome (IsDrained log) again
        → OnSome (IsDrained log) (if b then some d else again)
    settled-IsDrained true d again h k = h refl
    settled-IsDrained false d again h k = k

    filter-ahead :
        (from to : ℕ) (xs : List Item)
        → All (λ item. from < deps.position_of item) (filter (between deps from to) xs)
    filter-ahead from to [] = tt
    filter-ahead from to (x ∷ xs) = elim (Bool-cases (between deps from to x)) [
      | inl kept ↦ rw kept (ground arith, filter-ahead from to xs)
      | inr dropped ↦ rw dropped (filter-ahead from to xs)
    ]

    batch-Continues :
        (to : ℕ) (items : List Item) (d : Drain Item World)
        → items ≡ filter (between deps d.cursor to) log
        → d.halted ≡ false
        → Continues (consume_all deps items d)
    batch-Continues to items d e live =
        subst (λ xs. Continues (consume_all deps xs d)) (sym e)
          (consume_all-Continues (filter (between deps d.cursor to) log) d
            (filter-Ascending deps.position_of (between deps d.cursor to) log healthy.ascending)
            (filter-ahead d.cursor to log) live)

    nothing_left :
        (from to : ℕ) (d : Drain Item World)
        → ((item : Item) → In item log → from < deps.position_of item → from < to)
        → to ≤ d.cursor
        → (d.cursor == from) ≡ true
        → (item : Item) → In item log
        → deps.position_of item ≤ d.cursor
    nothing_left from to d examined reached still item l =
        elim (Bool-cases (leb (deps.position_of item) from)) [
          | inl past ↦ ground arith
          | inr beyond ↦ absurd (ground (arith, examined item l (ground arith)))
        ]

    handle-IsDrained :
        (answer : Result DrainFailure (DrainBatch Item)) (d : Drain Item World)
        (again : Drain Item World → Option (Drain Item World))
        → Examines log d.cursor answer
        → d.halted ≡ false
        → ((d' : Drain Item World) → d'.halted ≡ false → OnSome (IsDrained log) (again d'))
        → OnSome (IsDrained log) (handle deps answer d again)
    handle-IsDrained (err failure) d again e live keeps = absurd e
    handle-IsDrained (ok batch) d again e live keeps =
        and_then-IsDrained (consume_all deps batch.items d) _ (λ d'. Unit)
          (batch-Continues batch.scanned_to batch.items d e.0 live, tt)
          (λ d' live' _.
            and_then-IsDrained (skip_to deps batch.scanned_to d') _
              (λ d''. batch.scanned_to ≤ d''.cursor) (skip_to-Continues batch.scanned_to d' live')
              (λ d'' live'' reached.
                settled-IsDrained (d''.cursor == d.cursor) d'' (again d'')
                  (λ still. (nothing_left d.cursor batch.scanned_to d'' e.1 reached still, live''))
                  (keeps d'' live'')))

    drain-IsDrained :
        (fuel : ℕ) (d : Drain Item World)
        → d.halted ≡ false
        → OnSome (IsDrained log) (drain deps fuel d)
    unfolding drain
    drain-IsDrained zero d live = tt
    drain-IsDrained (suc fuel) d live =
        handle-IsDrained (deps.read d.cursor deps.batch_size d.world) _ (λ d'. drain deps fuel d')
          (healthy.reads d.cursor deps.batch_size d.world) live
          (λ d' live'. drain-IsDrained fuel d' live')

    unless_halted-IsDrained :
        (r : Option (Drain Item World)) (again : Drain Item World → Option (Drain Item World))
        → OnSome (IsDrained log) r
        → ((d : Drain Item World) → d.halted ≡ false → OnSome (IsDrained log) (again d))
        → OnSome (IsDrained log) (unless_halted deps r again)
    unless_halted-IsDrained none again h keeps = tt
    unless_halted-IsDrained (some d) again h keeps =
        settled-IsDrained d.halted d (again d) (λ e. h) (keeps d h.1)

    run_cycles-IsDrained :
        (fuel wakeups : ℕ) (d : Drain Item World)
        → d.halted ≡ false
        → OnSome (IsDrained log) (run_cycles deps fuel wakeups d)
    unfolding run_cycles
    run_cycles-IsDrained fuel zero d live = drain-IsDrained fuel d live
    run_cycles-IsDrained fuel (suc wakeups) d live =
        unless_halted-IsDrained (drain deps fuel d) (λ d'. run_cycles deps fuel wakeups d')
          (drain-IsDrained fuel d live) (λ d' live'. run_cycles-IsDrained fuel wakeups d' live')

  Healthy-IsFeedOf : (log : List Item) → IsHealthy log → IsFeedOf deps log
  Healthy-IsFeedOf log healthy = record {
    ascending = healthy.ascending;
    answers = λ from limit w. Examines-Answers log from _ (healthy.reads from limit w);
  }

  drained :
      (log : List Item) (fuel wakeups : ℕ) (d : Drain Item World)
      → IsHealthy log
      → d.halted ≡ false
      → OnSome (IsDrained log) (poll deps fuel wakeups d)
  unfolding poll
  drained log fuel wakeups d healthy live =
      settled-IsDrained log healthy d.halted d (run_cycles deps fuel wakeups d) (λ e. cc)
        (run_cycles-IsDrained log healthy fuel wakeups d live)

  -- While no read, step and save fails, a poll of a drain that is not halted ends, with a unit of fuel
  -- more than the head of the feed; then no item of the feed is left, the drain is not halted, and
  -- every item behind the cursor that it began at was stepped on.
  pub poll-IsDrained :
      (log : List Item) (head wakeups : ℕ) (d : Drain Item World)
      → IsHealthy log
      → EndsAt deps head
      → d.halted ≡ false
      → (d' : Drain Item World) × (poll deps (suc head) wakeups d ≡ some d')
        × IsDrained log d'
        × Delivers deps log d.cursor d'
  poll-IsDrained log head wakeups d healthy ends live =
      ended deps (IsDrained log) (Delivers deps log d.cursor) (poll deps (suc head) wakeups d)
        (poll-Ends deps head wakeups d ends) (drained log (suc head) wakeups d healthy live)
        (poll_skips_nothing deps log (suc head) wakeups d (Healthy-IsFeedOf log healthy))
