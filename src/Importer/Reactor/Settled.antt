-- ===== src/Importer/Reactor/Settled.antt =====
-- When an event is settled, and that it stays so.
use music_downloader.Prelude.{◌≡◌, sym, ap, ◌∙◌, subst, List, [], ◌∷◌, map, All, inl, inr, ◌⊎◌}
use music_downloader.Eventing.Drain.Feed.{In}
use music_downloader.Eventing.Log.{read_stream}
use music_downloader.Eventing.Log.Versions.{Placed, Extends, Extends-trans}
use music_downloader.Importer.Import.React.{Effect}
use music_downloader.Importer.Import.Aggregate.{react_to}
use music_downloader.Importer.Machine.{
  StoredEvent, Record, carried_out, rejected_stale, dead_lettered, Machine,
}
use music_downloader.Importer.Reactor.{effects_of}
use music_downloader.Importer.Reactor.Steady.{Steady}

-- An effect of an event was carried out, rejected as stale, or dead-lettered.
abbrev pub Settled : List Record → StoredEvent → Effect → Type 0
Settled trace e effect =
    In (carried_out e effect) trace
    ⊎ (In (rejected_stale e effect) trace ⊎ In (dead_lettered e effect) trace)

-- Each effect that the event has on its stream is settled.
abbrev pub AllSettled : List StoredEvent → List Record → StoredEvent → Type 0
AllSettled log trace e = All (Settled trace e) (effects_of e (read_stream e.stream_id log))

-- The log is extended and the trace goes on.
pub record Goes (m m' : Machine) : Type 0 where
  pub extends : Extends m.log m'.log
  pub traced : (r : Record) → In r m.trace → In r m'.trace

pub Goes-trans : {a b c : Machine} → Goes a b → Goes b c → Goes a c
Goes-trans f g = record {
  extends = Extends-trans f.extends g.extends;
  traced = λ r i. g.traced r (f.traced r i);
}

pub Steady-Goes : {m m' : Machine} → Steady m m' → Goes m m'
Steady-Goes h = record { extends = h.extends; traced = λ r i. subst (λ t. In r t) (sym h.trace) i }

-- Settled effects stay settled.
pub Settled-Goes :
    {m m' : Machine} (e : StoredEvent) (effect : Effect)
    → Goes m m'
    → Settled m.trace e effect
    → Settled m'.trace e effect
Settled-Goes e effect g (inl i) = inl (g.traced _ i)
Settled-Goes e effect g (inr (inl i)) = inr (inl (g.traced _ i))
Settled-Goes e effect g (inr (inr i)) = inr (inr (g.traced _ i))

All-Goes :
    {m m' : Machine} (e : StoredEvent) (effects : List Effect)
    → Goes m m'
    → All (Settled m.trace e) effects
    → All (Settled m'.trace e) effects
All-Goes e [] g h = tt
All-Goes e (effect ∷ effects) g h = (Settled-Goes e effect g h.0, All-Goes e effects g h.1)

-- An event's effects are those of its stream up to it, so that they do not change.
pub effects_of-Extends :
    {log log' : List StoredEvent} (e : StoredEvent)
    → Extends log log'
    → Placed log
    → In e log
    → effects_of e (read_stream e.stream_id log') ≡ effects_of e (read_stream e.stream_id log)
unfolding effects_of
effects_of-Extends e x placed i =
    ap (λ rows. react_to (map (λ (s : StoredEvent). s.event) rows) e.event) (x.prefix placed e i)

pub AllSettled-Goes :
    {m m' : Machine} (e : StoredEvent)
    → Goes m m'
    → Placed m.log
    → In e m.log
    → AllSettled m.log m.trace e
    → AllSettled m'.log m'.trace e
AllSettled-Goes {m} {m'} e g placed i h =
    subst (All (Settled m'.trace e)) (sym (effects_of-Extends e g.extends placed i))
      (All-Goes e (effects_of e (read_stream e.stream_id m.log)) g h)

-- What does not move the cursor and the checkpoint either.
pub record Stays (m m' : Machine) : Type 0 where
  pub goes : Goes m m'
  pub cursor : m'.cursor ≡ m.cursor
  pub checkpoint : m'.checkpoint ≡ m.checkpoint

pub Stays-trans : {a b c : Machine} → Stays a b → Stays b c → Stays a c
Stays-trans f g = record {
  goes = Goes-trans f.goes g.goes;
  cursor = g.cursor ∙ f.cursor;
  checkpoint = g.checkpoint ∙ f.checkpoint;
}

pub Steady-Stays : {m m' : Machine} → Steady m m' → Stays m m'
Steady-Stays h = record { goes = Steady-Goes h; cursor = h.cursor; checkpoint = h.checkpoint }
