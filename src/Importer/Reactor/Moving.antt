-- ===== src/Importer/Reactor/Moving.antt =====
-- A step of the reactor keeps its invariant, and moves the cursor by one event or not at all.
use music_downloader.Prelude.{
  ℕ, ◌+◌, ◌≡◌, refl, sym, ◌∙◌, subst, Bool, false, List, [], ◌∷◌, leb, All, Bool-cases, inl, inr,
  ◌⊎◌, arith,
}
use music_downloader.Eventing.Drain.Feed.{In}
use music_downloader.Eventing.Log.{read_stream}
use music_downloader.Eventing.Log.Versions.{Extends-member}
use music_downloader.Importer.Machine.{StoredEvent, ParkedEffect, Environment, Machine, call}
use music_downloader.Importer.Reactor.{
  is_stalled, effects_of, Outcome, held, settled, clear_park, resolve_stalled, advance, finish,
  process,
}
use music_downloader.Importer.Reactor.Steady.{Steady, call-Steady, resolve_stalled-Steady}
use music_downloader.Importer.Reactor.Settled.{
  Settled, AllSettled, Goes, Goes-trans, Steady-Goes, AllSettled-Goes, effects_of-Extends, Stays,
  Stays-trans, Steady-Stays,
}
use music_downloader.Importer.Reactor.Settling.{Concludes, dispatch_effects-Concludes}
use music_downloader.Importer.Reactor.Standing.{Upto, Inv, Upto-next, Steady-Inv, Stays-Inv}

pub members_later :
    {n n' : Machine} (rows : List StoredEvent)
    → Goes n n'
    → All (λ x. In x n.log) rows
    → All (λ x. In x n'.log) rows
members_later [] g k = tt
members_later (x ∷ xs) g k = (Extends-member g.extends x k.0, members_later xs g k.1)

-- What a step makes of a machine, where a row is next.
pub record MovesOn (s : StoredEvent) (m m' : Machine) : Type 0 where
  pub inv : Inv m'
  pub goes : Goes m m'
  pub cursor : (m'.cursor ≡ m.cursor) ⊎ (m'.cursor ≡ s.global_seq)

go_on : {s : StoredEvent} {a b c : Machine} → Stays a b → MovesOn s b c → MovesOn s a c
go_on f g = record {
  inv = g.inv;
  goes = Goes-trans f.goes g.goes;
  cursor = elim g.cursor [ inl stays ↦ inl (stays ∙ f.cursor) | inr moves ↦ inr moves ];
}

module _ (env : Environment) where
  clear_park-Stays : (seq : ℕ) (m : Machine) → Stays m (clear_park env seq m)
  unfolding clear_park
  clear_park-Stays seq m = elim (Bool-cases (env.faults m.tick)) [
    | inl fault ↦ rw fault (Steady-Stays (call-Steady env m))
    | inr kept ↦ rw kept (apart (Steady-Stays (call-Steady env m)))
  ]
    where
      apart :
          {tallies : List ParkedEffect}
          → Stays m (call env m)
          → Stays m (record (call env m) { tallies = tallies })
      apart g = record {
        goes = record { extends = g.goes.extends; traced = g.goes.traced };
        cursor = g.cursor;
        checkpoint = g.checkpoint;
      }

  advance-MovesOn :
      (s : StoredEvent) (was_stalled dead : Bool) (m : Machine)
      → Inv m
      → In s m.log
      → s.global_seq ≡ m.cursor + 1
      → AllSettled m.log m.trace s
      → MovesOn s m (advance env s was_stalled dead m)
  unfolding advance
  advance-MovesOn s was_stalled dead m h i at done = elim (Bool-cases (env.faults m.tick)) [
    | inl fault ↦ rw fault (record {
      inv = Steady-Inv (call-Steady env m) h;
      goes = Steady-Goes (call-Steady env m);
      cursor = inl (call-Steady env m).cursor;
    })
    | inr saved ↦ rw saved (record {
      inv = record {
        numbered = resolved-Inv.numbered;
        placed = resolved-Inv.placed;
        passed = subst (Upto resolved) after.checkpoint resolved-Inv.durable;
        durable = resolved-Inv.durable;
      };
      goes = record {
        extends = (Goes-trans saved-Goes after.goes).extends;
        traced = (Goes-trans saved-Goes after.goes).traced;
      };
      cursor = inr refl;
    })
  ]
    where
      m' : Machine
      m' = record (call env m) { checkpoint = s.global_seq }

      resolved : Machine
      resolved = resolve_stalled env s.stream_id was_stalled dead (clear_park env s.global_seq m')

      after : Stays m' resolved
      after = Stays-trans (clear_park-Stays s.global_seq m') (
          Steady-Stays (
            resolve_stalled-Steady env s.stream_id was_stalled dead
              (clear_park env s.global_seq m')))

      going : Steady m (call env m)
      going = call-Steady env m

      saved-Goes : Goes m m'
      saved-Goes = record {
        extends = (Steady-Goes going).extends;
        traced = (Steady-Goes going).traced;
      }

      called-Inv : Inv (call env m)
      called-Inv = Steady-Inv going h

      saved-Inv : Inv m'
      saved-Inv = record {
        numbered = called-Inv.numbered;
        placed = called-Inv.placed;
        passed = called-Inv.passed;
        durable =
            Upto-next (call env m) (call env m).cursor s called-Inv.numbered
              (Extends-member going.extends s i) (omega (arith, at, going.cursor))
              (AllSettled-Goes s (Steady-Goes going) h.placed i done) called-Inv.passed;
      }

      resolved-Inv : Inv resolved
      resolved-Inv = Stays-Inv after saved-Inv

  -- After the loop over the effects.
  finish-MovesOn :
      (s : StoredEvent) (was_stalled : Bool) (m : Machine) (r : Outcome × Machine)
      → Inv m
      → In s m.log
      → s.global_seq ≡ m.cursor + 1
      → Concludes m s (effects_of s (read_stream s.stream_id m.log)) r
      → MovesOn s m (finish env s was_stalled r)
  unfolding finish
  finish-MovesOn s was_stalled m (held, n) h i at g = record {
    inv = Stays-Inv g h;
    goes = g.goes;
    cursor = inl g.cursor;
  }
  finish-MovesOn s was_stalled m (settled dead, n) h i at (g, done) = go_on g (
      advance-MovesOn s was_stalled dead n (Stays-Inv g h) (Extends-member g.goes.extends s i)
        (omega (arith, at, g.cursor))
        (subst (All (Settled n.trace s)) (sym (effects_of-Extends s g.goes.extends h.placed i))
          done))

  pub process-MovesOn :
      (s : StoredEvent) (m : Machine)
      → Inv m
      → In s m.log
      → s.global_seq ≡ m.cursor + 1
      → MovesOn s m (process env s m)
  unfolding process
  process-MovesOn s m h i at =
      rw (ahead s.global_seq m.cursor at) (elim (Bool-cases (env.faults m.tick)) [
        | inl fault ↦ rw fault (record {
          inv = Steady-Inv going h;
          goes = Steady-Goes going;
          cursor = inl going.cursor;
        })
        | inr read ↦ rw read (
            go_on (Steady-Stays going) (
              finish-MovesOn s (is_stalled s.stream_id (call env m).stalled) (call env m) _
                (Steady-Inv going h) (Extends-member going.extends s i)
                (omega (arith, at, going.cursor))
                (dispatch_effects-Concludes env s
                  (effects_of s (read_stream s.stream_id (call env m).log)) false (call env m))))
      ])
    where
      going : Steady m (call env m)
      going = call-Steady env m

      ahead : (a b : ℕ) → a ≡ b + 1 → leb a b ≡ false
      ahead a b e = ground arith
