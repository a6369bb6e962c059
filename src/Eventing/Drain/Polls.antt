-- ===== src/Eventing/Drain/Polls.antt =====
-- What a poll promises, whichever calls fail.
use music_downloader.Prelude.{ℕ, suc, ◌≤◌, ◌≡◌, some, List}
use music_downloader.Eventing.Drain.{DrainDependencies, Drain, poll}
use music_downloader.Eventing.Drain.Order.{IsDurable, poll_keeps_checkpoint}
use music_downloader.Eventing.Drain.Feed.{IsFeedOf, Delivers}
use music_downloader.Eventing.Drain.Progress.{EndsAt, ended, poll-Ends}
use music_downloader.Eventing.Drain.Delivery.{poll_skips_nothing}

module _ {Item World : Type 0} (deps : DrainDependencies Item World) where
  -- A poll over the feed of a log that ends at a head has a result, with a unit of fuel more than the
  -- head, whichever reads, steps and saves fail: every item between the cursor before it and the
  -- cursor after it was stepped on successfully, the cursor did not move back, and the store holds it
  -- if it held the earlier one.
  pub poll-Delivers :
      (log : List Item) (head wakeups held : ℕ) (d : Drain Item World)
      → IsFeedOf deps log
      → EndsAt deps head
      → IsDurable deps held d
      → (d' : Drain Item World) × (poll deps (suc head) wakeups d ≡ some d')
        × Delivers deps log d.cursor d'
        × (IsDurable deps held d' × (d.cursor ≤ d'.cursor))
  poll-Delivers log head wakeups held d feed ends durable =
      ended deps (Delivers deps log d.cursor)
        (λ d'. IsDurable deps held d' × (d.cursor ≤ d'.cursor)) (poll deps (suc head) wakeups d)
        (poll-Ends deps head wakeups d ends) (poll_skips_nothing deps log (suc head) wakeups d feed)
        (poll_keeps_checkpoint deps (suc head) wakeups held d durable)
