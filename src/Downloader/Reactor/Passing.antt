-- ===== src/Downloader/Reactor/Passing.antt =====
-- `process` and the catch-up: the cursor passes an event only when it is handled or parked.
use music_downloader.Eventing.Log.Rows.{Numbered-within, Numbered-unique}
use music_downloader.Prelude.{
  ℕ, ◌+◌, ◌≤◌, ◌≡◌, refl, sym, ◌∙◌, subst, Bool, true, false, Option, none, some, leb, Bool-cases,
  inl, inr, ◌⊎◌, arith,
}
use music_downloader.Eventing.Drain.Feed.{In}
use music_downloader.Downloader.Log.{StoredEvent, read_stream}
use music_downloader.Downloader.Machine.{ParkedEffect, Environment, Machine, call, find_park}
use music_downloader.Downloader.Lander.{is_stalled, clear_stalled}
use music_downloader.Downloader.Reactor.{
  DispatchOutcome, dispatch_event, park_stream, advance_to, parked_then_advanced, processed,
  process_stream, process_found, process,
}
use music_downloader.Downloader.Reactor.Steady.{call-Steady, clear_stalled-Steady}
use music_downloader.Downloader.Reactor.Invariant.{Handled, Parked, Inv}
use music_downloader.Downloader.Reactor.Dispatching.{
  Goes, Goes-refl, Goes-trans, Steady-Goes, IsNext, IsNext-Onward, Dispatches,
  dispatch_event-Dispatches,
}
use music_downloader.Downloader.Reactor.Parking.{park_stream-Goes}
use music_downloader.Downloader.Reactor.Passes.{
  Passes, Goes-Passes, after_Goes, then_Goes, saved-Goes, find_park-none, find_park-some,
}

module _ (env : Environment) (s : StoredEvent) where
  -- The event is the one behind the cursor.
  abbrev pub IsAhead : Machine → Type 0
  IsAhead m = In s m.log × (s.global_seq ≡ m.cursor + 1)

  IsAhead-Goes : {m n : Machine} → Goes m n → IsAhead m → IsAhead n
  IsAhead-Goes g a = (g.onward.member s a.0, omega (arith, a.1, g.cursor))

  advanced-Passes :
      (m : Machine)
      → Inv m
      → IsAhead m
      → Handled m.trace s ⊎ Parked m.parks s
      → Passes s.global_seq m (record m { cursor = s.global_seq })
  advanced-Passes m h ahead rests = record {
    inv = record {
      numbered = h.numbered;
      behind = omega (arith, (Numbered-within 0 m.log s h.numbered ahead.0).1);
      durable = omega (arith, h.durable, ahead.1);
      kept = kept;
      sound = h.sound;
      ordered = h.ordered;
    };
    onward = record {
      handled = λ e i. i;
      member = λ e i. i;
      old = λ e i le. i;
      longer = omega arith;
    };
    cursor = inr refl;
  }
    where
      kept :
          (e : StoredEvent)
          → In e m.log
          → e.global_seq ≤ s.global_seq
          → Handled m.trace e ⊎ Parked m.parks e
      kept e i le = elim (Bool-cases (leb e.global_seq m.cursor)) [
        | inl old ↦ h.kept e i (ground arith)
        | inr new ↦
            subst (λ x. Handled m.trace x ⊎ Parked m.parks x)
              (sym (
                Numbered-unique 0 m.log e s h.numbered i ahead.0
                  (exactly e.global_seq s.global_seq m.cursor le new ahead.1)))
              rests
      ]
        where
          exactly : (a b c : ℕ) → a ≤ b → leb a c ≡ false → b ≡ c + 1 → a ≡ b
          exactly a b c le new at = ground arith

  advance_to-Passes :
      (m : Machine)
      → Inv m
      → IsAhead m
      → Handled m.trace s ⊎ Parked m.parks s
      → Passes s.global_seq m (advance_to env s.global_seq m)
  unfolding advance_to
  advance_to-Passes m h ahead rests = elim (Bool-cases (env.faults m.tick)) [
    | inl fault ↦ rw fault called
    | inr saved ↦ rw saved (
        then_Goes called (
          saved-Goes (call env moved) s.global_seq called.inv
            (omega (arith, (call-Steady env moved).cursor))))
  ]
    where
      moved : Machine
      moved = record m { cursor = s.global_seq }

      called : Passes s.global_seq m (call env moved)
      called =
          then_Goes (advanced-Passes m h ahead rests)
            (Steady-Goes (call-Steady env moved) (advanced-Passes m h ahead rests).inv)

  parked_then_advanced-Passes :
      (m : Machine) (r : Bool × Machine)
      → Goes m r.1
      → IsAhead m
      → (r.0 ≡ true → Handled r.1.trace s ⊎ Parked r.1.parks s)
      → Passes s.global_seq m (parked_then_advanced env s r)
  unfolding parked_then_advanced
  parked_then_advanced-Passes m (true, n) g ahead rests =
      after_Goes g (advance_to-Passes n g.inv (IsAhead-Goes g ahead) (rests refl))
  parked_then_advanced-Passes m (false, n) g ahead rests = Goes-Passes g

  processed-Passes :
      (m : Machine) (was_stalled : Bool) (r : DispatchOutcome × Machine)
      → Dispatches m s r
      → IsAhead m
      → Passes s.global_seq m (processed env s was_stalled r)
  unfolding processed
  processed-Passes m was_stalled (some effect, n) d ahead =
      let parking = park_stream-Goes env s effect n d.goes.inv d.next in
      after_Goes d.goes (
        parked_then_advanced-Passes n (park_stream env s effect n) parking.0
          (IsAhead-Goes d.goes ahead) parking.1)
  processed-Passes m true (none, n) d ahead =
      let clearing = Steady-Goes (clear_stalled-Steady env s.stream_id n) d.goes.inv in
      let going = Goes-trans d.goes clearing in
      after_Goes going (
        advance_to-Passes (clear_stalled env s.stream_id n) going.inv (IsAhead-Goes going ahead)
          (inl (clearing.onward.handled s (d.settles refl))))
  processed-Passes m false (none, n) d ahead =
      after_Goes d.goes
        (advance_to-Passes n d.goes.inv (IsAhead-Goes d.goes ahead) (inl (d.settles refl)))

  process_stream-Passes :
      (m : Machine)
      → Inv m
      → IsAhead m
      → IsNext m s
      → Passes s.global_seq m (process_stream env s m)
  unfolding process_stream
  process_stream-Passes m h ahead next = elim (Bool-cases (env.faults m.tick)) [
    | inl fault ↦ rw fault (Goes-Passes calling)
    | inr read ↦ rw read (
        after_Goes calling (
          processed-Passes (call env m) (is_stalled s.stream_id (call env m).stalled)
            (dispatch_event env s (read_stream s.stream_id (call env m).log) (call env m))
            (dispatch_event-Dispatches env s _ (call env m) calling.inv
              (IsNext-Onward s calling h next))
            (IsAhead-Goes calling ahead)))
  ]
    where
      calling : Goes m (call env m)
      calling = Steady-Goes (call-Steady env m) h

  -- With no park of its stream, the event behind the cursor is the next of its stream.
  unparked-IsNext :
      (m : Machine) → Inv m → IsAhead m → find_park s.stream_id m.parks ≡ none → IsNext m s
  unparked-IsNext m h ahead none_found =
      (ahead.0, λ e i same lt. settled e same (h.kept e i (omega (arith, lt, ahead.1))))
    where
      settled :
          (e : StoredEvent)
          → e.stream_id ≡ s.stream_id
          → Handled m.trace e ⊎ Parked m.parks e
          → Handled m.trace e
      settled e same (inl done) = done
      settled e same (inr (p, i, at, le)) =
          absurd (find_park-none s.stream_id p m.parks none_found i (at ∙ same))

  process_found-Passes :
      (m : Machine) (found : Option ParkedEffect)
      → find_park s.stream_id m.parks ≡ found
      → Inv m
      → IsAhead m
      → Passes s.global_seq m (process_found env s found m)
  unfolding process_found
  process_found-Passes m none e h ahead =
      process_stream-Passes m h ahead (unparked-IsNext m h ahead e)
  process_found-Passes m (some entry) e h ahead =
      advance_to-Passes m h ahead (behind (Bool-cases (leb entry.global_seq s.global_seq)))
    where
      found : In entry m.parks × (entry.stream_id ≡ s.stream_id)
      found = find_park-some s.stream_id entry m.parks e

      -- A park ahead of the event is sound, so that the event is handled.
      behind :
          (leb entry.global_seq s.global_seq ≡ true) ⊎ (leb entry.global_seq s.global_seq ≡ false)
          → Handled m.trace s ⊎ Parked m.parks s
      behind (inl le) = inr (entry, found.0, found.1, ground arith)
      behind (inr gt) = inl ((h.sound entry found.0).1 s ahead.0 (sym found.1) (ground arith))

  pub process-Passes : (m : Machine) → Inv m → IsAhead m → Passes s.global_seq m (process env s m)
  unfolding process
  process-Passes m h ahead = elim (Bool-cases (leb s.global_seq m.cursor)) [
    | inl old ↦ rw old (Goes-Passes (Goes-refl h))
    | inr new ↦ elim (Bool-cases (env.faults m.tick)) [
      | inl fault ↦ rw (new, fault) (Goes-Passes calling)
      | inr found ↦
          rw (new, found)
            (after_Goes calling (
              process_found-Passes (call env m) (find_park s.stream_id (call env m).parks) refl
                calling.inv (IsAhead-Goes calling ahead)))
    ]
  ]
    where
      calling : Goes m (call env m)
      calling = Steady-Goes (call-Steady env m) h
