-- ===== src/Downloader/Reactor/Dispatching.antt =====
-- What the dispatch of an event keeps of the invariant.
use music_downloader.Eventing.Log.Rows.{Numbered-within}
use music_downloader.Prelude.{◌≡◌, ◌∙◌, refl, none, some, List, ◌∷◌, inl, inr, ◌⊎◌, arith}
use music_downloader.Eventing.Drain.Feed.{In}
use music_downloader.Downloader.Log.{StoredEvent}
use music_downloader.Downloader.Machine.{Record, began, dispatched, Environment, Machine}
use music_downloader.Downloader.Reactor.{
  DispatchOutcome, effects_of, dispatch_effects, noted, when_dispatched, dispatch_event,
}
use music_downloader.Downloader.Reactor.Steady.{Steady, dispatch_effects-Steady}
use music_downloader.Downloader.Reactor.Invariant.{
  Handled, After, Parked, InOrder, Inv, Onward, Onward-refl, Onward-trans, Steady-Onward,
  After-Onward, Steady-Inv,
}

-- A step that keeps the invariant and the cursor.
pub record Goes (m m' : Machine) : Type 0 where
  pub inv : Inv m'
  pub onward : Onward m m'
  pub cursor : m'.cursor ≡ m.cursor

pub Goes-refl : {m : Machine} → Inv m → Goes m m
Goes-refl {m} h = record { inv = h; onward = Onward-refl m; cursor = refl }

pub Goes-trans : {a b c : Machine} → Goes a b → Goes b c → Goes a c
Goes-trans f g = record {
  inv = g.inv;
  onward = Onward-trans f.onward g.onward;
  cursor = g.cursor ∙ f.cursor;
}

pub Steady-Goes : {m m' : Machine} → Steady m m' → Inv m → Goes m m'
Steady-Goes s h = record { inv = Steady-Inv s h; onward = Steady-Onward s h; cursor = s.cursor }

-- An event that may be dispatched: a row of the log, whose predecessors in its stream are handled.
abbrev pub IsNext : Machine → StoredEvent → Type 0
IsNext m s = In s m.log × After m.log m.trace s.stream_id s.global_seq

pub IsNext-Onward :
    {m m' : Machine} (s : StoredEvent) → Goes m m' → Inv m → IsNext m s → IsNext m' s
IsNext-Onward {m} s g h (i, before) = (
  g.onward.member s i,
  After-Onward s.stream_id s.global_seq g.onward
      (omega (arith, (Numbered-within 0 m.log s h.numbered i).1)) before,
)

-- An entry of the trace.
module _ (env : Environment) (r : Record) (m : Machine) (h : Inv m) where
  later : (e : StoredEvent) → Handled m.trace e → Handled (r ∷ m.trace) e
  later e (inl i) = inl (inr i)
  later e (inr i) = inr (inr i)

  pub noted-Goes : InOrder m.log (r ∷ m.trace) → Goes m (noted env r m)
  noted-Goes o = record {
    inv = record {
      numbered = h.numbered;
      behind = h.behind;
      durable = h.durable;
      kept = λ e i le. still e (h.kept e i le);
      sound = λ p i. ((h.sound p i).0, λ e j same lt. later e ((h.sound p i).1 e j same lt));
      ordered = o;
    };
    onward = record { handled = later; member = λ e i. i; old = λ e i le. i; longer = omega arith };
    cursor = refl;
  }
    where
      still :
          (e : StoredEvent)
          → Handled m.trace e ⊎ Parked m.parks e
          → Handled (r ∷ m.trace) e ⊎ Parked m.parks e
      still e (inl done) = inl (later e done)
      still e (inr held) = inr held

-- What is known after a dispatch.
pub record Dispatches (m : Machine) (s : StoredEvent) (r : DispatchOutcome × Machine) : Type 0 where
  pub goes : Goes m r.1
  pub next : IsNext r.1 s
  pub settles : r.0 ≡ none → Handled r.1.trace s

module _ (env : Environment) where
  when_dispatched-Dispatches :
      (m : Machine) (s : StoredEvent) (r : DispatchOutcome × Machine)
      → Goes m r.1
      → IsNext r.1 s
      → Dispatches m s (when_dispatched env s r)
  when_dispatched-Dispatches m s (none, n) g next =
      let noting = noted-Goes env (dispatched s) n g.inv g.inv.ordered in
      record {
        goes = Goes-trans g noting;
        next = IsNext-Onward s noting g.inv next;
        settles = λ e. inl (inl refl);
      }
  when_dispatched-Dispatches m s (some effect, n) g next = record {
    goes = g;
    next = next;
    settles = λ e. cc;
  }

  pub dispatch_event-Dispatches :
      (s : StoredEvent) (stream : List StoredEvent) (m : Machine)
      → Inv m
      → IsNext m s
      → Dispatches m s (dispatch_event env s stream m)
  unfolding dispatch_event
  dispatch_event-Dispatches s stream m h next =
      let noting = noted-Goes env (began s) m h (next.0, next.1, h.ordered) in
      let going = Goes-trans noting (
        Steady-Goes (dispatch_effects-Steady env s (effects_of s stream) (noted env (began s) m))
          noting.inv) in
      when_dispatched-Dispatches m s
        (dispatch_effects env s (effects_of s stream) (noted env (began s) m)) going
        (IsNext-Onward s going h next)

-- The table of parks.
