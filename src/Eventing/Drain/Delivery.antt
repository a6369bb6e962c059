-- ===== src/Eventing/Drain/Delivery.antt =====
-- A poll passes over no item of the feed.
use music_downloader.Prelude.{
  ℕ, zero, suc, Bool, true, false, Option, none, some, List, [], ◌==◌, if◌then◌else◌, Result, ok,
  err, arith,
}
use music_downloader.Eventing.Drain.{
  DrainFailure, transient, permanent, is_permanent, DrainBatch, DrainDependencies, Drain, and_then,
  consume_all, skip_to, handle, drain, unless_halted, run_cycles, poll,
}
use music_downloader.Eventing.Drain.Order.{OnSome}
use music_downloader.Eventing.Drain.Feed.{Ascending, Answers, IsFeedOf, Delivers}
use music_downloader.Eventing.Drain.Consuming.{Consumed, batch-Consumed, skip_to-Delivers}

module _ {Item World : Type 0} (deps : DrainDependencies Item World) where
  module _ (log : List Item) (from : ℕ) where
    and_then-OnSome :
        (r : Bool × Drain Item World) (go : Drain Item World → Option (Drain Item World))
        (P : Bool × Drain Item World → Type 0)
        → ((d : Drain Item World) → P (true, d) → OnSome (Delivers deps log from) (go d))
        → ((d : Drain Item World) → P (false, d) → Delivers deps log from d)
        → P r
        → OnSome (Delivers deps log from) (and_then deps r go (λ d. some d))
    and_then-OnSome (true, d) go P on_go on_stop h = on_go d h
    and_then-OnSome (false, d) go P on_go on_stop h = on_stop d h

    settled-OnSome :
        (b : Bool) (d : Drain Item World) (again : Option (Drain Item World))
        → Delivers deps log from d
        → OnSome (Delivers deps log from) again
        → OnSome (Delivers deps log from) (if b then some d else again)
    settled-OnSome true d again h k = h
    settled-OnSome false d again h k = k

    handle-Delivers :
        (answer : Result DrainFailure (DrainBatch Item)) (d : Drain Item World)
        (again : Drain Item World → Option (Drain Item World))
        → Ascending deps.position_of log
        → Answers deps log d.cursor answer
        → ((d' : Drain Item World)
            → Delivers deps log from d'
            → OnSome (Delivers deps log from) (again d'))
        → Delivers deps log from d
        → OnSome (Delivers deps log from) (handle deps answer d again)
    unfolding is_permanent
    handle-Delivers (err permanent) d again asc e keeps h = h
    handle-Delivers (err transient) d again asc e keeps h = h
    handle-Delivers (ok batch) d again asc e keeps h =
        and_then-OnSome (consume_all deps batch.items d) _
          (Consumed deps log from batch.scanned_to [])
          (λ d' h'.
            and_then-OnSome (skip_to deps batch.scanned_to d') _ (λ r. Delivers deps log from r.1)
              (λ d'' h''.
                settled-OnSome (d''.cursor == d.cursor) d'' (again d'') h'' (keeps d'' h''))
              (λ d'' h''. h'') (skip_to-Delivers deps log from batch.scanned_to d' h'.0 h'.1))
          (λ d' h'. h') (batch-Consumed deps log from batch.scanned_to batch.items d asc e h)

    module _ (feed : IsFeedOf deps log) where
      drain-Delivers :
          (fuel : ℕ) (d : Drain Item World)
          → Delivers deps log from d
          → OnSome (Delivers deps log from) (drain deps fuel d)
      unfolding drain
      drain-Delivers zero d h = tt
      drain-Delivers (suc fuel) d h =
          handle-Delivers (deps.read d.cursor deps.batch_size d.world) _ (λ d'. drain deps fuel d')
            feed.ascending (feed.answers d.cursor deps.batch_size d.world)
            (λ d' h'. drain-Delivers fuel d' h') h

      unless_halted-OnSome :
          (r : Option (Drain Item World)) (again : Drain Item World → Option (Drain Item World))
          → ((d : Drain Item World)
              → Delivers deps log from d
              → OnSome (Delivers deps log from) (again d))
          → OnSome (Delivers deps log from) r
          → OnSome (Delivers deps log from) (unless_halted deps r again)
      unless_halted-OnSome none again keeps h = tt
      unless_halted-OnSome (some d) again keeps h =
          settled-OnSome d.halted d (again d) h (keeps d h)

      run_cycles-Delivers :
          (fuel wakeups : ℕ) (d : Drain Item World)
          → Delivers deps log from d
          → OnSome (Delivers deps log from) (run_cycles deps fuel wakeups d)
      unfolding run_cycles
      run_cycles-Delivers fuel zero d h = drain-Delivers fuel d h
      run_cycles-Delivers fuel (suc wakeups) d h =
          unless_halted-OnSome (drain deps fuel d) (λ d'. run_cycles deps fuel wakeups d')
            (λ d' h'. run_cycles-Delivers fuel wakeups d' h') (drain-Delivers fuel d h)

  -- A poll over the feed of a log passes over no item: whichever reads, steps and saves fail, every
  -- item between the cursor before it and the cursor after it was stepped on successfully.
  pub poll_skips_nothing :
      (log : List Item) (fuel wakeups : ℕ) (d : Drain Item World)
      → IsFeedOf deps log
      → OnSome (Delivers deps log d.cursor) (poll deps fuel wakeups d)
  unfolding poll
  poll_skips_nothing log fuel wakeups d feed =
      let start : Delivers deps log d.cursor d = λ item l a b. absurd (omega arith) in
      settled-OnSome log d.cursor d.halted d (run_cycles deps fuel wakeups d) start
        (run_cycles-Delivers log d.cursor feed fuel wakeups d start)
