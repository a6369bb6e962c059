-- ===== src/Eventing/Scenarios.antt =====
-- The theorems on the drain at a feed of three items.
use music_downloader.Prelude.{
  ℕ, ◌+◌, ◌≤◌, ◌<◌, ◌≡◌, refl, Bool, true, false, ◌&&◌, some, List, [], ◌∷◌, ltb, leb, ◌==◌,
  if◌then◌else◌, ok, err, arith, filter, filter-All,
}
use music_downloader.Eventing.Drain.{
  transient, DrainDependencies, stepped, failed, saved, Drain, poll,
}
use music_downloader.Eventing.Drain.Order.{IsDurable}
use music_downloader.Eventing.Drain.Feed.{IsFeedOf, Delivers}
use music_downloader.Eventing.Drain.Polls.{poll-Delivers}
use music_downloader.Eventing.Drain.Healthy.{IsHealthy, IsDrained, poll-IsDrained}
use music_downloader.Eventing.Drain.Feed.{In}
use music_downloader.Eventing.Drain.Progress.{EndsAt, Ends, poll-Ends}

-- An item is its position.
abbrev some_log : List ℕ
some_log = 2 ∷ 3 ∷ 5 ∷ []

abbrev behind : ℕ → ℕ → Bool
behind from item = ltb from item && leb item 5

-- The feed answers with all that it holds; the world counts the calls, and every third step fails for
-- a while.
abbrev some_deps : DrainDependencies ℕ ℕ
some_deps = record {
  read = λ from limit w. ok (record { items = filter (behind from) some_log; scanned_to = 5 });
  position_of = λ item. item;
  try_step = λ item w. if w == 3 then err transient else ok tt;
  load = λ w. ok 0;
  try_save = λ p w. true;
  next = λ w. w + 1;
  attempts = 3;
  batch_size = 100;
}

abbrev idle : Drain ℕ ℕ
idle = record { cursor = 0; halted = false; world = 0; trace = [] }

some_feed : IsFeedOf some_deps some_log
some_feed = record { ascending = ground arith; answers = λ from limit w. refl }

some_feed_ends : EndsAt some_deps 5
some_feed_ends from limit w =
    (filter-All (λ item. item ≤ 5) (behind from) some_log (ground arith), omega arith)

poll-Delivers_example :
    (d' : Drain ℕ ℕ) × (poll some_deps 6 1 idle ≡ some d')
    × Delivers some_deps some_log idle.cursor d'
    × (IsDurable some_deps 0 d' × (idle.cursor ≤ d'.cursor))
poll-Delivers_example = poll-Delivers some_deps some_log 5 1 0 idle some_feed some_feed_ends refl

poll-Ends_example : Ends some_deps (poll some_deps 6 1 idle)
poll-Ends_example = poll-Ends some_deps 5 1 idle some_feed_ends

-- The retry succeeds, and the feed is drained.
drains_to_head :
    poll some_deps 9 1 idle
    ≡ some (record {
      cursor = 5;
      halted = false;
      world = 10;
      trace =
          saved 5 ∷ stepped 5 ∷ saved 3 ∷ stepped 3 ∷ failed 3 transient ∷ saved 2 ∷ stepped 2 ∷ [];
    })
unfolding poll
drains_to_head = refl

-- Every call succeeds.
abbrev healthy_deps : DrainDependencies ℕ ℕ
healthy_deps = record some_deps { try_step = λ item w. ok tt }

healthy_deps-IsHealthy : IsHealthy healthy_deps some_log
healthy_deps-IsHealthy = record {
  ascending = ground arith;
  reads = λ from limit w. (refl, λ item l a. below_five item from l a);
  steps = λ item w. refl;
  saves = λ p w. refl;
  some_attempt = omega arith;
}
  where
    below_five : (item from : ℕ) → In item some_log → from < item → from < 5
    below_five item from l a = ground arith

poll-IsDrained_example :
    (d' : Drain ℕ ℕ) × (poll healthy_deps 6 1 idle ≡ some d')
    × IsDrained healthy_deps some_log d'
    × Delivers healthy_deps some_log idle.cursor d'
poll-IsDrained_example =
    poll-IsDrained healthy_deps some_log 5 1 idle healthy_deps-IsHealthy
      (λ from limit w.
        (filter-All (λ item. item ≤ 5) (behind from) some_log (ground arith), omega arith))
      refl
