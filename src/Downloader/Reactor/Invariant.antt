-- ===== src/Downloader/Reactor/Invariant.antt =====
-- The invariant of the reactor: what the cursor passed is handled, or waits behind a park.
use music_downloader.Eventing.Log.Rows.{Numbered, Numbered-within, In-append, In-old}
use music_downloader.Prelude.{
  ℕ, ◌+◌, ◌≤◌, ◌<◌, ◌≡◌, sym, ap, subst, List, [], ◌∷◌, String, length, length-append, inl, inr,
  ◌⊎◌, arith,
}
use music_downloader.Eventing.Drain.Feed.{In}
use music_downloader.Downloader.Log.{StoredEvent}
use music_downloader.Downloader.Machine.{ParkedEffect, Record, began, dispatched, landed, Machine}
use music_downloader.Downloader.Reactor.Steady.{Steady}

-- The effects of the event are settled.
abbrev pub Handled : List Record → StoredEvent → Type 0
Handled trace e = In (dispatched e) trace ⊎ In (landed e) trace

-- Every earlier event of the stream is handled.
abbrev pub After : List StoredEvent → List Record → String → ℕ → Type 0
After log trace id seq =
    (e : StoredEvent) → In e log → e.stream_id ≡ id → e.global_seq < seq → Handled trace e

abbrev pub Parked : List ParkedEffect → StoredEvent → Type 0
Parked parks e =
    (p : ParkedEffect) × In p parks × (p.stream_id ≡ e.stream_id) × (p.global_seq ≤ e.global_seq)

-- A park stands at an event of its stream, and the earlier ones are handled.
abbrev pub IsSound : List StoredEvent → List Record → ParkedEffect → Type 0
IsSound log trace p =
    ((e : StoredEvent) × In e log × (e.stream_id ≡ p.stream_id) × (e.global_seq ≡ p.global_seq))
    × After log trace p.stream_id p.global_seq

-- No event was begun before those ahead of it in its stream were handled.
abbrev pub InOrder : List StoredEvent → List Record → Type 0
InOrder log [] = Unit
InOrder log (began e ∷ trace) =
    In e log × After log trace e.stream_id e.global_seq × InOrder log trace
InOrder log (dispatched e ∷ trace) = InOrder log trace
InOrder log (landed e ∷ trace) = InOrder log trace

pub record Inv (m : Machine) : Type 0 where
  pub numbered : Numbered 0 m.log
  pub behind : m.cursor ≤ length m.log
  pub durable : m.checkpoint ≤ m.cursor
  pub kept :
      (e : StoredEvent)
      → In e m.log
      → e.global_seq ≤ m.cursor
      → Handled m.trace e ⊎ Parked m.parks e
  pub sound : (p : ParkedEffect) → In p m.parks → IsSound m.log m.trace p
  pub ordered : InOrder m.log m.trace

-- What holds of every later machine: what was handled stays so, and the log has only new rows more.
pub record Onward (m m' : Machine) : Type 0 where
  pub handled : (e : StoredEvent) → Handled m.trace e → Handled m'.trace e
  pub member : (e : StoredEvent) → In e m.log → In e m'.log
  pub old : (e : StoredEvent) → In e m'.log → e.global_seq ≤ length m.log → In e m.log
  pub longer : length m.log ≤ length m'.log

pub Onward-refl : (m : Machine) → Onward m m
Onward-refl m = record {
  handled = λ e h. h;
  member = λ e i. i;
  old = λ e i le. i;
  longer = omega arith;
}

pub Onward-trans : {a b c : Machine} → Onward a b → Onward b c → Onward a c
Onward-trans f g = record {
  handled = λ e h. g.handled e (f.handled e h);
  member = λ e i. g.member e (f.member e i);
  old = λ e i le. f.old e (g.old e i (omega (arith, f.longer, le))) le;
  longer = omega (arith, f.longer, g.longer);
}

pub Steady-Onward : {m m' : Machine} → Steady m m' → Inv m → Onward m m'
Steady-Onward {m} {m'} s h = record {
  handled = λ e i. subst (λ t. Handled t e) (sym s.trace) i;
  member = λ e i. subst (λ l. In e l) (sym s.grows.extended) (In-append e m.log s.grows.more i);
  old = λ e i le.
      In-old 0 m.log s.grows.more e
        (subst (λ l. Numbered 0 l) s.grows.extended (s.grows.numbered h.numbered))
        (subst (λ l. In e l) s.grows.extended i) (omega (arith, le));
  longer = omega (arith, ap (λ l. length l) s.grows.extended, length-append m.log s.grows.more);
}

-- The log that an order is about may grow.
pub After-Onward :
    {m m' : Machine} (id : String) (seq : ℕ)
    → Onward m m'
    → seq ≤ length m.log + 1
    → After m.log m.trace id seq
    → After m'.log m'.trace id seq
After-Onward id seq f le h =
    λ e i same lt. f.handled e (h e (f.old e i (omega (arith, lt, le))) same lt)

InOrder-grows :
    {m m' : Machine} (trace : List Record)
    → Onward m m'
    → Inv m
    → InOrder m.log trace
    → InOrder m'.log trace
InOrder-grows [] f h o = tt
InOrder-grows {m} (began e ∷ trace) f h o = (
  f.member e o.0,
  λ x i same lt.
      o.1 x (f.old x i (omega (arith, lt, (Numbered-within 0 m.log e h.numbered o.0).1))) same lt,
  InOrder-grows trace f h o.2,
)
InOrder-grows (dispatched e ∷ trace) f h o = InOrder-grows trace f h o
InOrder-grows (landed e ∷ trace) f h o = InOrder-grows trace f h o

pub IsSound-Onward :
    {m m' : Machine} (p : ParkedEffect)
    → Onward m m'
    → Inv m
    → IsSound m.log m.trace p
    → IsSound m'.log m'.trace p
IsSound-Onward {m} p f h ((e, i, of_stream, at), before) = (
  (e, f.member e i, of_stream, at),
  After-Onward p.stream_id p.global_seq f
      (omega (arith, at, (Numbered-within 0 m.log e h.numbered i).1)) before,
)

pub Steady-Inv : {m m' : Machine} → Steady m m' → Inv m → Inv m'
Steady-Inv {m} {m'} s h = record {
  numbered = s.grows.numbered h.numbered;
  behind = omega (arith, s.cursor, h.behind, f.longer);
  durable = omega (arith, s.cursor, s.checkpoint, h.durable);
  kept = λ e i le.
      still e (
        h.kept e (f.old e i (omega (arith, s.cursor, h.behind, le))) (omega (arith, s.cursor, le)));
  sound = λ p i. IsSound-Onward p f h (h.sound p (subst (λ l. In p l) s.parks i));
  ordered = subst (λ t. InOrder m'.log t) (sym s.trace) (InOrder-grows m.trace f h h.ordered);
}
  where
    f : Onward m m'
    f = Steady-Onward s h

    still :
        (e : StoredEvent)
        → Handled m.trace e ⊎ Parked m.parks e
        → Handled m'.trace e ⊎ Parked m'.parks e
    still e (inl done) = inl (f.handled e done)
    still e (inr (p, i, same, le)) = inr (p, subst (λ l. In p l) (sym s.parks) i, same, le)
