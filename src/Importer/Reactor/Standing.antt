-- ===== src/Importer/Reactor/Standing.antt =====
-- The invariant of the reactor: the events up to the cursor, and up to the checkpoint, are settled.
use music_downloader.Prelude.{
  ℕ, ◌+◌, ◌≤◌, ◌<◌, ◌≡◌, sym, ap, subst, length, length-append, inl, inr, ◌⊎◌, arith,
}
use music_downloader.Eventing.Drain.Feed.{In}
use music_downloader.Eventing.Log.Rows.{Numbered, Numbered-within, Numbered-unique, In-old}
use music_downloader.Eventing.Log.Versions.{Placed}
use music_downloader.Importer.Machine.{StoredEvent, Machine}
use music_downloader.Importer.Reactor.Steady.{Steady}
use music_downloader.Importer.Reactor.Settled.{
  AllSettled, Goes, Steady-Goes, AllSettled-Goes, Stays,
}

-- The events up to a number are stored and settled.
abbrev pub Upto : Machine → ℕ → Type 0
Upto m n =
    (n ≤ length m.log)
    × ((e : StoredEvent) → In e m.log → e.global_seq ≤ n → AllSettled m.log m.trace e)

pub record Inv (m : Machine) : Type 0 where
  pub numbered : Numbered 0 m.log
  pub placed : Placed m.log
  pub passed : Upto m m.cursor
  pub durable : Upto m m.checkpoint

longer : {m m' : Machine} → Goes m m' → length m.log ≤ length m'.log
longer {m} g =
    omega
      (arith, ap (λ l. length l) g.extends.grows.extended, length-append m.log g.extends.grows.more)

-- A row of the later log is one of the earlier, if its number is.
old_row :
    {m m' : Machine} (e : StoredEvent)
    → Goes m m'
    → Numbered 0 m.log
    → In e m'.log
    → e.global_seq ≤ length m.log
    → In e m.log
old_row {m} e g numbered i le =
    In-old 0 m.log g.extends.grows.more e
      (subst (λ l. Numbered 0 l) g.extends.grows.extended (g.extends.grows.numbered numbered))
      (subst (λ l. In e l) g.extends.grows.extended i) (omega (arith, le))

Upto-Goes :
    {m m' : Machine} (n : ℕ) → Goes m m' → Numbered 0 m.log → Placed m.log → Upto m n → Upto m' n
Upto-Goes {m} n g numbered placed h = (
  omega (arith, h.0, longer g),
  λ e i le.
      let old = old_row e g numbered i (omega (arith, le, h.0)) in
      AllSettled-Goes e g placed old (h.1 e old le),
)

-- One event more.
pub Upto-next :
    (m : Machine) (n : ℕ) (s : StoredEvent)
    → Numbered 0 m.log
    → In s m.log
    → s.global_seq ≡ n + 1
    → AllSettled m.log m.trace s
    → Upto m n
    → Upto m s.global_seq
Upto-next m n s numbered i at done h = (
  omega (arith, (Numbered-within 0 m.log s numbered i).1),
  λ e j le. elim (split e.global_seq s.global_seq le) [
    | inl lt ↦ h.1 e j (omega (arith, lt, at))
    | inr same ↦
        subst (AllSettled m.log m.trace) (sym (Numbered-unique 0 m.log e s numbered j i same)) done
  ],
)
  where
    split : (a b : ℕ) → a ≤ b → (a < b) ⊎ (a ≡ b)
    split a b le' = ground arith

-- A machine that only went on from a sound one, its cursor and checkpoint aside.
Goes-Inv : {m m' : Machine} → Goes m m' → Inv m → Upto m' m'.cursor → Upto m' m'.checkpoint → Inv m'
Goes-Inv g h passed durable = record {
  numbered = g.extends.grows.numbered h.numbered;
  placed = g.extends.placed h.placed;
  passed = passed;
  durable = durable;
}

kept-Upto : {m m' : Machine} (n k : ℕ) → Goes m m' → Inv m → Upto m n → k ≡ n → Upto m' k
kept-Upto {m} {m'} n k g h u same = subst (Upto m') (sym same) (Upto-Goes n g h.numbered h.placed u)

pub Steady-Inv : {m m' : Machine} → Steady m m' → Inv m → Inv m'
Steady-Inv {m} {m'} s h =
    Goes-Inv (Steady-Goes s) h (kept-Upto m.cursor m'.cursor (Steady-Goes s) h h.passed s.cursor)
      (kept-Upto m.checkpoint m'.checkpoint (Steady-Goes s) h h.durable s.checkpoint)

pub Stays-Inv : {m m' : Machine} → Stays m m' → Inv m → Inv m'
Stays-Inv {m} {m'} s h =
    Goes-Inv s.goes h (kept-Upto m.cursor m'.cursor s.goes h h.passed s.cursor)
      (kept-Upto m.checkpoint m'.checkpoint s.goes h h.durable s.checkpoint)
