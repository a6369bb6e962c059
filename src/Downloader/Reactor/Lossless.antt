-- ===== src/Downloader/Reactor/Lossless.antt =====
-- Runs of the reactor over restarts: nothing that the cursor passed is lost, and streams keep their
-- order.
use music_downloader.Prelude.{
  ℕ, ◌≤◌, ◌≡◌, false, List, [], ◌∷◌, String, length, Bool-cases, inl, inr, ◌⊎◌, arith,
}
use music_downloader.Eventing.Drain.Feed.{In}
use music_downloader.Downloader.Log.{StoredEvent}
use music_downloader.Downloader.Machine.{DeadLetter, Environment, Machine, call}
use music_downloader.Downloader.Lander.{pruned, seed_stalled}
use music_downloader.Downloader.Reactor.Scheduler.{drain_round}
use music_downloader.Downloader.Reactor.Startup.{
  redrive, boot, Action, boots, drains, redrives, act, act_all,
}
use music_downloader.Downloader.Reactor.Steady.{Steady, Steady-trans, call-Steady}
use music_downloader.Downloader.Reactor.Invariant.{Handled, Parked, InOrder, Inv}
use music_downloader.Downloader.Reactor.Dispatching.{Goes, Steady-Goes}
use music_downloader.Downloader.Reactor.CatchingUp.{Holds}
use music_downloader.Downloader.Reactor.Retrying.{drain_round-Holds}
use music_downloader.Downloader.Reactor.Redriving.{redrive-Goes}

module _ (env : Environment) where
  -- Letters and marks are no part of the invariant.
  marked-Steady :
      {m n : Machine} {letters : List DeadLetter} {marks : List String}
      → Steady m n
      → Steady m (record n { letters = letters; stalled = marks })
  marked-Steady h = record {
    cursor = h.cursor;
    checkpoint = h.checkpoint;
    parks = h.parks;
    trace = h.trace;
    grows = h.grows;
  }

  pruned-Steady : (horizon : ℕ) (m : Machine) → Steady m (pruned env horizon m)
  unfolding pruned
  pruned-Steady horizon m = elim (Bool-cases (env.faults m.tick)) [
    | inl fault ↦ rw fault (call-Steady env m)
    | inr kept ↦ rw kept (marked-Steady (call-Steady env m))
  ]

  seed_stalled-Steady : (horizon : ℕ) (m : Machine) → Steady m (seed_stalled env horizon m)
  unfolding seed_stalled
  seed_stalled-Steady horizon m = elim (Bool-cases (env.faults unmarked.tick)) [
    | inl fault ↦ rw fault listing
    | inr listed ↦ rw listed (marked-Steady listing)
  ]
    where
      unmarked : Machine
      unmarked = record (pruned env horizon m) { stalled = [] }

      listing : Steady m (call env unmarked)
      listing = Steady-trans (marked-Steady (pruned-Steady horizon m)) (call-Steady env unmarked)

  -- A new process goes on from the checkpoint, which is not ahead of what was passed.
  boot-Holds :
      (horizon : ℕ) (m : Machine)
      → Inv m
      → env.faults (seed_stalled env horizon m).tick ≡ false
      → Holds m (boot env horizon m)
  unfolding boot
  boot-Holds horizon m h loads = rw loads (record {
    inv = record {
      numbered = going.inv.numbered;
      behind = omega (arith, going.inv.durable, going.inv.behind);
      durable = omega arith;
      kept = λ e i le. going.inv.kept e i (omega (arith, le, going.inv.durable));
      sound = going.inv.sound;
      ordered = going.inv.ordered;
    };
    onward = record {
      handled = going.onward.handled;
      member = going.onward.member;
      old = going.onward.old;
      longer = going.onward.longer;
    };
  })
    where
      going : Goes m (call env (seed_stalled env horizon m))
      going =
          Steady-Goes
            (Steady-trans (seed_stalled-Steady horizon m)
              (call-Steady env (seed_stalled env horizon m)))
            h

  -- Every boot reads its checkpoint, and a re-drive begins when the cursor is at the head of the log.
  abbrev pub IsGuarded : List Action → Machine → Type 0
  IsGuarded [] m = Unit
  IsGuarded (boots horizon ∷ actions) m =
      (env.faults (seed_stalled env horizon m).tick ≡ false)
      × IsGuarded actions (boot env horizon m)
  IsGuarded (drains ∷ actions) m = IsGuarded actions (drain_round env m)
  IsGuarded (redrives ∷ actions) m =
      (length (call env m).log ≤ m.cursor) × IsGuarded actions (redrive env m)

  act_all-Inv :
      (actions : List Action) (m : Machine)
      → Inv m
      → IsGuarded actions m
      → Inv (act_all env actions m)
  unfolding act_all act
  act_all-Inv [] m h guarded = h
  act_all-Inv (boots horizon ∷ actions) m h guarded =
      act_all-Inv actions (boot env horizon m) (boot-Holds horizon m h guarded.0).inv guarded.1
  act_all-Inv (drains ∷ actions) m h guarded =
      act_all-Inv actions (drain_round env m) (drain_round-Holds env m h).inv guarded
  act_all-Inv (redrives ∷ actions) m h guarded =
      act_all-Inv actions (redrive env m) (redrive-Goes env m h guarded.0).inv guarded.1

-- A machine before its first boot.
abbrev pub new_machine : Machine
new_machine = record {
  tick = 0;
  log = [];
  cursor = 0;
  checkpoint = 0;
  parks = [];
  letters = [];
  stalled = [];
  trace = [];
}

new_machine-Inv : Inv new_machine
new_machine-Inv = record {
  numbered = tt;
  behind = omega arith;
  durable = omega arith;
  kept = λ e i le. absurd i;
  sound = λ p i. absurd i;
  ordered = tt;
}

module _ (env : Environment) (actions : List Action) where
  -- Whatever fails and whatever others append, in a run over restarts in which each boot reads its
  -- checkpoint and each re-drive begins at the head of the log, an event that the cursor passed has
  -- its effects settled, or waits at or behind a park of its stream.
  pub nothing_is_lost :
      IsGuarded env actions new_machine
      → (e : StoredEvent) → In e (act_all env actions new_machine).log
      → e.global_seq ≤ (act_all env actions new_machine).cursor
      → Handled (act_all env actions new_machine).trace e
        ⊎ Parked (act_all env actions new_machine).parks e
  nothing_is_lost guarded = (act_all-Inv env actions new_machine new_machine-Inv guarded).kept

  -- Whatever fails and whatever others append, in a run over restarts in which each boot reads its
  -- checkpoint and each re-drive begins at the head of the log, no event's effects are begun before
  -- the effects of every earlier event of its stream are settled.
  pub streams_keep_order :
      IsGuarded env actions new_machine
      → InOrder (act_all env actions new_machine).log (act_all env actions new_machine).trace
  streams_keep_order guarded = (act_all-Inv env actions new_machine new_machine-Inv guarded).ordered
