-- ===== src/Downloader/Reactor/Clearing.antt =====
-- What the removal of a park keeps, once what it held back is handled.
use music_downloader.Prelude.{
  ◌≤◌, ◌<◌, ◌≡◌, refl, sym, ap, ◌∙◌, subst, List, [], ◌∷◌, String, str_eq, All, Bool-cases, inl,
  inr, ◌⊎◌, arith,
}
use music_downloader.Eventing.Drain.Feed.{In, Ascending, In-All}
use music_downloader.Downloader.Log.{StoredEvent}
use music_downloader.Downloader.Machine.{ParkedEffect, Machine, clear_park}
use music_downloader.Downloader.Reactor.Invariant.{Handled, Parked, Inv}
use music_downloader.Downloader.Reactor.Dispatching.{Goes, IsNext}
use music_downloader.Downloader.Reactor.Parking.{clear-In}

-- The events of a stream up to the cursor are handled.
abbrev pub IsResolved : Machine → String → Type 0
IsResolved m id =
    (e : StoredEvent) → In e m.log → e.stream_id ≡ id → e.global_seq ≤ m.cursor → Handled m.trace e

In-cleared :
    (id : String) (q : ParkedEffect) (ps : List ParkedEffect) → In q (clear_park id ps) → In q ps
In-cleared id q [] i = absurd i
In-cleared id q (p ∷ ps) i = elim (Bool-cases (str_eq p.stream_id id)) [
  | inl same ↦ inr (In-cleared id q ps (rw same at i))
  | inr other ↦ found (In-cleared id q ps) (rw other at i)
]
  where
    found : (In q (clear_park id ps) → In q ps) → In q (p ∷ clear_park id ps) → In q (p ∷ ps)
    found ih (inl same) = inl same
    found ih (inr i') = inr (ih i')

pub cleared-Goes :
    (id : String) (m : Machine)
    → Inv m
    → IsResolved m id
    → Goes m (record m { parks = clear_park id m.parks })
cleared-Goes id m h resolved = record {
  inv = record {
    numbered = h.numbered;
    behind = h.behind;
    durable = h.durable;
    kept = λ e i le. still e i le (h.kept e i le);
    sound = λ p i. h.sound p (In-cleared id p m.parks i);
    ordered = h.ordered;
  };
  onward = record {
    handled = λ e i. i;
    member = λ e i. i;
    old = λ e i le. i;
    longer = omega arith;
  };
  cursor = refl;
}
  where
    still :
        (e : StoredEvent)
        → In e m.log
        → e.global_seq ≤ m.cursor
        → Handled m.trace e ⊎ Parked m.parks e
        → Handled m.trace e ⊎ Parked (clear_park id m.parks) e
    still e i le (inl done) = inl done
    still e i le (inr (p, at, same, before)) = elim (clear-In id p m.parks at) [
      | inl cleared ↦ inl (resolved e i (sym same ∙ cleared) le)
      | inr stays ↦ inr (p, stays, same, before)
    ]

pub IsResolved-Onward :
    {m m' : Machine} (id : String) → Goes m m' → Inv m → IsResolved m id → IsResolved m' id
IsResolved-Onward id g h resolved = λ e i same le. g.onward.handled e (
    resolved e (g.onward.old e i (omega (arith, le, g.cursor, h.behind))) same
      (omega (arith, le, g.cursor)))

-- The queue of a stream: its events up to the cursor that are not handled, in their order.
abbrev pub Queue : Machine → String → List StoredEvent → Type 0
Queue m id q =
    Ascending (λ s. s.global_seq) q
    × All (λ s. In s m.log × (s.stream_id ≡ id) × (s.global_seq ≤ m.cursor)) q
    × ((e : StoredEvent)
        → In e m.log
        → e.stream_id ≡ id
        → e.global_seq ≤ m.cursor
        → Handled m.trace e ⊎ In e q)

pub members_stay :
    {m m' : Machine} (id : String) (q : List StoredEvent)
    → Goes m m'
    → All (λ s. In s m.log × (s.stream_id ≡ id) × (s.global_seq ≤ m.cursor)) q
    → All (λ s. In s m'.log × (s.stream_id ≡ id) × (s.global_seq ≤ m'.cursor)) q
members_stay id [] g h = tt
members_stay id (s ∷ q) g h =
    ((g.onward.member s h.0.0, h.0.1, omega (arith, h.0.2, g.cursor)), members_stay id q g h.1)

-- The head of a queue is the next event of its stream.
pub head-IsNext :
    (m : Machine) (id : String) (s : StoredEvent) (q : List StoredEvent)
    → Queue m id (s ∷ q)
    → IsNext m s
head-IsNext m id s q queue = (
  queue.1.0.0,
  λ e i same lt. settled e lt (queue.2 e i (same ∙ queue.1.0.1) (omega (arith, lt, queue.1.0.2))),
)
  where
    settled :
        (e : StoredEvent)
        → e.global_seq < s.global_seq
        → Handled m.trace e ⊎ In e (s ∷ q)
        → Handled m.trace e
    settled e lt (inl done) = done
    settled e lt (inr (inl same)) =
        let at : e.global_seq ≡ s.global_seq = ap (λ x. x.global_seq) same in
        absurd (omega (arith, at, lt))
    settled e lt (inr (inr i)) =
        let past = In-All (λ y. s.global_seq < y.global_seq) e q queue.0.0 i in
        absurd (omega (arith, past, lt))

-- When the head is handled, its queue goes on.
pub tail-Queue :
    {m n : Machine} (id : String) (s : StoredEvent) (q : List StoredEvent)
    → Goes m n
    → Inv m
    → Queue m id (s ∷ q)
    → Handled n.trace s
    → Queue n id q
tail-Queue {m} {n} id s q g h queue done = (
  queue.0.1,
  members_stay id q g queue.1.1,
  λ e i same le. left e (
      queue.2 e (g.onward.old e i (omega (arith, le, g.cursor, h.behind))) same
        (omega (arith, le, g.cursor))),
)
  where
    left : (e : StoredEvent) → Handled m.trace e ⊎ In e (s ∷ q) → Handled n.trace e ⊎ In e q
    left e (inl before) = inl (g.onward.handled e before)
    left e (inr (inl same)) = inl (subst (λ x. Handled n.trace x) (sym same) done)
    left e (inr (inr i)) = inr i
