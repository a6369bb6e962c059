-- ===== src/Downloader/Reactor/Rereading.antt =====
-- What a stream that was read says of the log later.
use music_downloader.Eventing.Log.Rows.{Numbered-Ascending, log_members}
use music_downloader.Prelude.{
  ℕ, ◌≤◌, ◌≡◌, refl, sym, ap, ◌∙◌, false, some, List, [], ◌∷◌, String, str_eq, eq_iff, ◌==◌, All,
  Bool-cases, inl, inr, arith,
}
use music_downloader.Eventing.Drain.Feed.{In, Ascending, filter-In, filter-Ascending}
use music_downloader.Downloader.Log.{StoredEvent, read_stream}
use music_downloader.Downloader.Machine.{Machine}
use music_downloader.Downloader.Reactor.Scheduler.{find_stored}
use music_downloader.Downloader.Reactor.Invariant.{Inv}
use music_downloader.Downloader.Reactor.Dispatching.{Goes}

pub find_stored-some :
    (seq : ℕ) (e : StoredEvent) (ss : List StoredEvent)
    → In e ss
    → e.global_seq ≡ seq
    → (s : StoredEvent) × (find_stored seq ss ≡ some s) × In s ss × (s.global_seq ≡ seq)
find_stored-some seq e [] i at = absurd i
find_stored-some seq e (s ∷ ss) i at = elim (Bool-cases (s.global_seq == seq)) [
  | inl here ↦ (s, rw here refl, inl refl, ground arith)
  | inr there ↦
      let (t, found, j, same) = find_stored-some seq e ss (later there i) at in
      (t, rw there found, inr j, same)
]
  where
    apart : (a b : ℕ) → (a == b) ≡ false → a ≡ b → ⊥
    apart a b f e' = ground arith

    later : (s.global_seq == seq) ≡ false → In e (s ∷ ss) → In e ss
    later f (inl same) = absurd (apart s.global_seq seq f (sym (ap (λ x. x.global_seq) same) ∙ at))
    later f (inr j) = j

-- A stream that was read when the log was as long, at least, as the cursor is.
abbrev pub Read : Machine → String → List StoredEvent → Type 0
Read m id stream =
    Ascending (λ s. s.global_seq) stream
    × All (λ s. In s m.log × (s.stream_id ≡ id)) stream
    × ((e : StoredEvent) → In e m.log → e.stream_id ≡ id → e.global_seq ≤ m.cursor → In e stream)

read_members :
    (id : String) (log xs : List StoredEvent)
    → All (λ s. In s log) xs
    → All (λ s. In s log × (s.stream_id ≡ id)) (read_stream id xs)
read_members id log [] h = tt
read_members id log (x ∷ xs) h = elim (Bool-cases (str_eq x.stream_id id)) [
  | inl same ↦ rw same ((h.0, (eq_iff x.stream_id id).0 same), read_members id log xs h.1)
  | inr other ↦ rw other (read_members id log xs h.1)
]

pub read_stream-Read : (id : String) (m : Machine) → Inv m → Read m id (read_stream id m.log)
read_stream-Read id m h = (
  filter-Ascending (λ s. s.global_seq) (λ s. str_eq s.stream_id id) m.log
      (Numbered-Ascending 0 m.log h.numbered),
  read_members id m.log m.log (log_members m.log),
  λ e i same le. filter-In (λ s. str_eq s.stream_id id) e m.log i ((eq_iff e.stream_id id).1 same),
)

rows_stay :
    {m m' : Machine} (id : String) (xs : List StoredEvent)
    → Goes m m'
    → All (λ s. In s m.log × (s.stream_id ≡ id)) xs
    → All (λ s. In s m'.log × (s.stream_id ≡ id)) xs
rows_stay id [] g h = tt
rows_stay id (x ∷ xs) g h = ((g.onward.member x h.0.0, h.0.1), rows_stay id xs g h.1)

pub Read-Onward :
    {m m' : Machine} (id : String) (stream : List StoredEvent)
    → Goes m m'
    → Inv m
    → Read m id stream
    → Read m' id stream
Read-Onward id stream g h r = (
  r.0,
  rows_stay id stream g r.1,
  λ e i same le.
      r.2 e (g.onward.old e i (omega (arith, le, g.cursor, h.behind))) same
        (omega (arith, le, g.cursor)),
)
