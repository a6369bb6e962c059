-- ===== src/Eventing/Log/Rows.antt =====
-- A log grows at its end only, and its rows are told apart by their sequence numbers.
use music_downloader.Prelude.{
  ℕ, ◌+◌, ◌≤◌, ◌<◌, ◌≡◌, refl, sym, ap, ◌∙◌, subst, Bool, true, false, List, [], ◌∷◌, ◌++◌, String,
  length, ltb, filter, filter-All, All, Bool-cases, inl, inr, arith,
}
use mathlib.Core.List.{append-nil, append_assoc}
use music_downloader.Eventing.Drain.Feed.{In, Ascending}
use music_downloader.Eventing.Log.{Stored, row, insert_rows, arrive}

module _ {Event : Type 0} where
  -- The sequence numbers count on from a number.
  abbrev pub Numbered : ℕ → List (Stored Event) → Type 0
  Numbered n [] = Unit
  Numbered n (s ∷ ss) = (s.global_seq ≡ n + 1) × Numbered (n + 1) ss

  pub Numbered-append :
      (n k : ℕ) (xs : List (Stored Event)) (s : Stored Event)
      → k ≡ n + length xs
      → s.global_seq ≡ k + 1
      → Numbered n xs
      → Numbered n (xs ++ s ∷ [])
  Numbered-append n k [] s e at h = (omega (arith, e, at), tt)
  Numbered-append n k (x ∷ xs) s e at h = (h.0, Numbered-append (n + 1) k xs s (omega arith) at h.1)

  pub record Grows (log log' : List (Stored Event)) : Type 0 where
    pub more : List (Stored Event)
    pub extended : log' ≡ log ++ more
    pub numbered : Numbered 0 log → Numbered 0 log'

  pub Grows-refl : (log : List (Stored Event)) → Grows log log
  Grows-refl log = record { more = []; extended = sym (append-nil log); numbered = λ h. h }

  pub Grows-trans : {a b c : List (Stored Event)} → Grows a b → Grows b c → Grows a c
  Grows-trans {a} g h = record {
    more = g.more ++ h.more;
    extended = h.extended ∙ ap (λ l. l ++ h.more) g.extended ∙ append_assoc a g.more h.more;
    numbered = λ n. h.numbered (g.numbered n);
  }

  pub insert_rows-Grows :
      (id : String) (events : List Event) (log : List (Stored Event))
      → Grows log (insert_rows id events log)
  unfolding insert_rows
  insert_rows-Grows id [] log = Grows-refl log
  insert_rows-Grows id (event ∷ events) log =
      Grows-trans
        (record {
          more = row id event log ∷ [];
          extended = refl;
          numbered =
              λ h. Numbered-append 0 (length log) log (row id event log) (omega arith) refl h;
        })
        (insert_rows-Grows id events (log ++ row id event log ∷ []))

  pub arrive-Grows :
      (more : List (String × Event)) (log : List (Stored Event)) → Grows log (arrive more log)
  unfolding arrive
  arrive-Grows [] log = Grows-refl log
  arrive-Grows ((id, event) ∷ more) log =
      Grows-trans (insert_rows-Grows id (event ∷ []) log)
        (arrive-Grows more (insert_rows id (event ∷ []) log))

  -- Rows of a numbered log.
  pub Numbered-within :
      (n : ℕ) (log : List (Stored Event)) (e : Stored Event)
      → Numbered n log
      → In e log
      → (n < e.global_seq) × (e.global_seq ≤ n + length log)
  Numbered-within n [] e h i = absurd i
  Numbered-within n (s ∷ ss) e h (inl same) =
      let at : e.global_seq ≡ n + 1 = ap (λ x. x.global_seq) same ∙ h.0 in
      (omega arith, omega arith)
  Numbered-within n (s ∷ ss) e h (inr later) =
      let ih = Numbered-within (n + 1) ss e h.1 later in (omega (arith, ih.0), omega (arith, ih.1))

  pub Numbered-unique :
      (n : ℕ) (log : List (Stored Event)) (e s : Stored Event)
      → Numbered n log
      → In e log
      → In s log
      → e.global_seq ≡ s.global_seq
      → e ≡ s
  Numbered-unique n [] e s h i j same = absurd i
  Numbered-unique n (x ∷ xs) e s h (inl p) (inl q) same = p ∙ sym q
  Numbered-unique n (x ∷ xs) e s h (inl p) (inr q) same =
      let later = (Numbered-within (n + 1) xs s h.1 q).0 in
      let at : e.global_seq ≡ n + 1 = ap (λ y. y.global_seq) p ∙ h.0 in
      absurd (omega (arith, later, at, same))
  Numbered-unique n (x ∷ xs) e s h (inr p) (inl q) same =
      let later = (Numbered-within (n + 1) xs e h.1 p).0 in
      let at : s.global_seq ≡ n + 1 = ap (λ y. y.global_seq) q ∙ h.0 in
      absurd (omega (arith, later, at, same))
  Numbered-unique n (x ∷ xs) e s h (inr p) (inr q) same =
      Numbered-unique (n + 1) xs e s h.1 p q same

  pub Numbered-Ascending :
      (n : ℕ) (log : List (Stored Event)) → Numbered n log → Ascending (λ s. s.global_seq) log
  Numbered-Ascending n [] h = tt
  Numbered-Ascending n (s ∷ ss) h =
      (above (n + 1) ss s.global_seq (omega (arith, h.0)) h.1, Numbered-Ascending (n + 1) ss h.1)
    where
      above :
          (k : ℕ) (xs : List (Stored Event)) (seq : ℕ)
          → seq ≤ k
          → Numbered k xs
          → All (λ y. seq < y.global_seq) xs
      above k [] seq le h' = tt
      above k (x ∷ xs) seq le h' =
          (omega (arith, h'.0, le), above (k + 1) xs seq (omega (arith, le)) h'.1)

  pub In-append : (e : Stored Event) (xs ys : List (Stored Event)) → In e xs → In e (xs ++ ys)
  In-append e [] ys i = absurd i
  In-append e (x ∷ xs) ys (inl same) = inl same
  In-append e (x ∷ xs) ys (inr later) = inr (In-append e xs ys later)

  -- A row of an extended log is an old one if its number is.
  pub In-old :
      (n : ℕ) (xs ys : List (Stored Event)) (e : Stored Event)
      → Numbered n (xs ++ ys)
      → In e (xs ++ ys)
      → e.global_seq ≤ n + length xs
      → In e xs
  In-old n [] ys e h i le =
      let later = (Numbered-within n ys e h i).0 in absurd (omega (arith, later, le))
  In-old n (x ∷ xs) ys e h (inl same) le = inl same
  In-old n (x ∷ xs) ys e h (inr later) le =
      inr (In-old (n + 1) xs ys e h.1 later (omega (arith, le)))

  -- Of a numbered log, the rows behind a number count on from it.
  read_from :
      (n c : ℕ) (log : List (Stored Event))
      → Numbered n log
      → c ≤ n
      → filter (λ s. ltb c s.global_seq) log ≡ log
  read_from n c [] h le = refl
  read_from n c (s ∷ ss) h le =
      rw (before c s.global_seq (omega (arith, h.0, le)))
        (ap (λ l. s ∷ l) (read_from (n + 1) c ss h.1 (omega (arith, le))))
    where
      before : (a b : ℕ) → a < b → ltb a b ≡ true
      before a b lt = ground arith

  pub read_all-Numbered :
      (n c : ℕ) (log : List (Stored Event))
      → Numbered n log
      → n ≤ c
      → Numbered c (filter (λ s. ltb c s.global_seq) log)
  read_all-Numbered n c [] h le = tt
  read_all-Numbered n c (s ∷ ss) h le = elim (Bool-cases (ltb c s.global_seq)) [
    | inl new ↦
        let here : c ≡ n = exactly c s.global_seq new h.0 le in
        rw (new, read_from (n + 1) c ss h.1 (omega arith))
          (omega (arith, h.0), subst (λ k. Numbered (k + 1) ss) (sym here) h.1)
    | inr old ↦ rw old (read_all-Numbered (n + 1) c ss h.1 (past c s.global_seq old h.0))
  ]
    where
      exactly : (a b : ℕ) → ltb a b ≡ true → b ≡ n + 1 → n ≤ a → a ≡ n
      exactly a b lt e le' = ground arith

      past : (a b : ℕ) → ltb a b ≡ false → b ≡ n + 1 → n + 1 ≤ a
      past a b f e = ground arith

  member_later :
      (s : Stored Event) (log xs : List (Stored Event))
      → All (λ x. In x log) xs
      → All (λ x. In x (s ∷ log)) xs
  member_later s log [] h = tt
  member_later s log (x ∷ xs) h = (inr h.0, member_later s log xs h.1)

  pub log_members : (log : List (Stored Event)) → All (λ s. In s log) log
  log_members [] = tt
  log_members (s ∷ ss) = (inl refl, member_later s ss ss (log_members ss))

  pub behind_members :
      (p : Stored Event → Bool) (log : List (Stored Event)) → All (λ s. In s log) (filter p log)
  behind_members p log = filter-All (λ s. In s log) p log (log_members log)
