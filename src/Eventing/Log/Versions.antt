-- ===== src/Eventing/Log/Versions.antt =====
-- The versions of the rows of a log: a stream up to one of its rows does not change as the log grows.
use music_downloader.Prelude.{
  ℕ, ◌<◌, ◌≡◌, refl, sym, ap, ◌∙◌, subst, Bool, true, false, List, [], ◌∷◌, ◌++◌, String, str_eq,
  eq_iff, eq_refl, length, length-append, leb, filter, Bool-cases, inl, inr, ◌⊎◌, arith,
}
use music_downloader.Eventing.Drain.Feed.{In}
use music_downloader.Eventing.Log.{Stored, read_stream, row, insert_rows, arrive}
use music_downloader.Eventing.Log.Rows.{
  Grows, Grows-refl, Grows-trans, insert_rows-Grows, In-append,
}

filter-append :
    {A : Type 0} (p : A → Bool) (xs ys : List A) → filter p (xs ++ ys) ≡ filter p xs ++ filter p ys
filter-append p [] ys = refl
filter-append p (x ∷ xs) ys = elim (Bool-cases (p x)) [
  | inl kept ↦ rw (kept, filter-append p xs ys) refl
  | inr dropped ↦ rw (dropped, filter-append p xs ys) refl
]

nil-append : {A : Type 0} (xs : List A) → xs ++ [] ≡ xs
nil-append [] = refl
nil-append (x ∷ xs) = ap (λ l. x ∷ l) (nil-append xs)

module _ {Event : Type 0} where
  -- The stream of a row, up to it.
  abbrev pub prefix_of : Stored Event → List (Stored Event) → List (Stored Event)
  prefix_of e log = filter (λ x. leb x.version e.version) (read_stream e.stream_id log)

  -- Each row's version is a place in its stream.
  abbrev pub Placed : List (Stored Event) → Type 0
  Placed log = (e : Stored Event) → In e log → e.version < length (read_stream e.stream_id log)

  pub record Extends (log log' : List (Stored Event)) : Type 0 where
    pub grows : Grows log log'
    pub placed : Placed log → Placed log'
    pub prefix : Placed log → (e : Stored Event) → In e log → prefix_of e log' ≡ prefix_of e log

  pub Extends-member :
      {log log' : List (Stored Event)}
      → Extends log log'
      → (e : Stored Event) → In e log
      → In e log'
  Extends-member {log} x e i =
      subst (λ l. In e l) (sym x.grows.extended) (In-append e log x.grows.more i)

  pub Extends-refl : (log : List (Stored Event)) → Extends log log
  Extends-refl log = record { grows = Grows-refl log; placed = λ h. h; prefix = λ h e i. refl }

  pub Extends-trans : {a b c : List (Stored Event)} → Extends a b → Extends b c → Extends a c
  Extends-trans x y = record {
    grows = Grows-trans x.grows y.grows;
    placed = λ h. y.placed (x.placed h);
    prefix = λ h e i. y.prefix (x.placed h) e (Extends-member x e i) ∙ x.prefix h e i;
  }

  In-append-cases :
      (e s : Stored Event) (log : List (Stored Event)) → In e (log ++ s ∷ []) → In e log ⊎ (e ≡ s)
  In-append-cases e s [] (inl same) = inr same
  In-append-cases e s [] (inr i) = absurd i
  In-append-cases e s (x ∷ log) (inl same) = inl (inl same)
  In-append-cases e s (x ∷ log) (inr i) = elim (In-append-cases e s log i) [
    | inl old ↦ inl (inr old)
    | inr new ↦ inr new
  ]

  read_stream-row :
      (id : String) (event : Event) (log : List (Stored Event)) (other : String)
      → read_stream other (log ++ row id event log ∷ [])
        ≡ read_stream other log ++ read_stream other (row id event log ∷ [])
  read_stream-row id event log other =
      filter-append (λ s. str_eq s.stream_id other) log (row id event log ∷ [])

  own_place :
      (id : String) (event : Event) (log : List (Stored Event))
      → length (read_stream id log) < length (read_stream id (log ++ row id event log ∷ []))
  own_place id event log = rw (read_stream-row id event log id) (
      rw (length-append (read_stream id log) (read_stream id (row id event log ∷ [])))
        (rw (eq_refl id) (omega arith)))

  row-Placed :
      (id : String) (event : Event) (log : List (Stored Event))
      → Placed log
      → Placed (log ++ row id event log ∷ [])
  row-Placed id event log h e i = elim (In-append-cases e (row id event log) log i) [
    | inl old ↦ rw (read_stream-row id event log e.stream_id) (
        rw
          (length-append (read_stream e.stream_id log)
            (read_stream e.stream_id (row id event log ∷ [])))
          (omega (arith, h e old)))
    | inr new ↦
        subst
          (λ (x : Stored Event).
            x.version < length (read_stream x.stream_id (log ++ row id event log ∷ [])))
          (sym new) (own_place id event log)
  ]

  -- A new row of the stream is behind the old ones.
  row_behind :
      (id : String) (event : Event) (log : List (Stored Event)) (e : Stored Event)
      → e.version < length (read_stream e.stream_id log)
      → prefix_of e (row id event log ∷ []) ≡ []
  row_behind id event log e lt = elim (Bool-cases (str_eq id e.stream_id)) [
    | inl same ↦ rw (same, later same) refl
    | inr other ↦ rw other refl
  ]
    where
      same_text : (s t : String) → str_eq s t ≡ true → s ≡ t
      same_text s t h = ground (arith, eq_iff s t)

      past : (a b : ℕ) → a < b → leb b a ≡ false
      past a b lt' = ground arith

      later : str_eq id e.stream_id ≡ true → leb (length (read_stream id log)) e.version ≡ false
      later same = past e.version (length (read_stream id log)) (
          subst (λ t. e.version < length (read_stream t log)) (sym (same_text id e.stream_id same))
            lt)

  row-Extends :
      (id : String) (event : Event) (log : List (Stored Event))
      → Extends log (log ++ row id event log ∷ [])
  unfolding insert_rows
  row-Extends id event log = record {
    grows = insert_rows-Grows id (event ∷ []) log;
    placed = row-Placed id event log;
    prefix = λ h e i. rw (read_stream-row id event log e.stream_id) (
        rw
          (filter-append (λ x. leb x.version e.version) (read_stream e.stream_id log)
            (read_stream e.stream_id (row id event log ∷ [])))
          (rw (row_behind id event log e (h e i)) (nil-append (prefix_of e log))));
  }

  pub insert_rows-Extends :
      (id : String) (events : List Event) (log : List (Stored Event))
      → Extends log (insert_rows id events log)
  unfolding insert_rows
  insert_rows-Extends id [] log = Extends-refl log
  insert_rows-Extends id (event ∷ events) log =
      Extends-trans (row-Extends id event log)
        (insert_rows-Extends id events (log ++ row id event log ∷ []))

  pub arrive-Extends :
      (more : List (String × Event)) (log : List (Stored Event)) → Extends log (arrive more log)
  unfolding arrive
  arrive-Extends [] log = Extends-refl log
  arrive-Extends ((id, event) ∷ more) log =
      Extends-trans (insert_rows-Extends id (event ∷ []) log)
        (arrive-Extends more (insert_rows id (event ∷ []) log))
