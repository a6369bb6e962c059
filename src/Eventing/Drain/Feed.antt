-- ===== src/Eventing/Drain/Feed.antt =====
-- Lists of items in the order of their positions, and a feed over such a list.
use music_downloader.Prelude.{
  ℕ, ◌≤◌, ◌<◌, ◌≡◌, sym, subst, Bool, true, ◌&&◌, List, [], ◌∷◌, ltb, leb, Result, ok, err, arith,
  Bool-cases, inl, inr, ◌⊎◌, All, filter,
}
use music_downloader.Eventing.Drain.{DrainFailure, DrainBatch, DrainDependencies, stepped, Drain}

module _ {A : Type 0} where
  abbrev pub In : A → List A → Type 0
  In x [] = ⊥
  In x (y ∷ ys) = (x ≡ y) ⊎ In x ys

  pub filter-In : (p : A → Bool) (x : A) (xs : List A) → In x xs → p x ≡ true → In x (filter p xs)
  filter-In p x [] h e = h
  filter-In p x (y ∷ ys) (inl same) e = rw (subst (λ z. p z ≡ true) same e) (inl same)
  filter-In p x (y ∷ ys) (inr later) e = elim (Bool-cases (p y)) [
    | inl kept ↦ rw kept (inr (filter-In p x ys later e))
    | inr dropped ↦ rw dropped (filter-In p x ys later e)
  ]

  -- Strictly ascending positions.
  abbrev pub Ascending : (A → ℕ) → List A → Type 0
  Ascending position [] = Unit
  Ascending position (x ∷ xs) = All (λ y. position x < position y) xs × Ascending position xs

  filter-above :
      (position : A → ℕ) (p : A → Bool) (n : ℕ) (xs : List A)
      → All (λ y. n < position y) xs
      → All (λ y. n < position y) (filter p xs)
  filter-above position p n [] h = tt
  filter-above position p n (x ∷ xs) h = ground (arith, filter-above position p n xs h.1)

  pub filter-Ascending :
      (position : A → ℕ) (p : A → Bool) (xs : List A)
      → Ascending position xs
      → Ascending position (filter p xs)
  filter-Ascending position p [] h = tt
  filter-Ascending position p (x ∷ xs) h = elim (Bool-cases (p x)) [
    | inl kept ↦
        rw kept (filter-above position p (position x) xs h.0, filter-Ascending position p xs h.1)
    | inr dropped ↦ rw dropped (filter-Ascending position p xs h.1)
  ]

  pub In-All : (P : A → Type 0) (x : A) (xs : List A) → All P xs → In x xs → P x
  In-All P x [] h i = absurd i
  In-All P x (y ∷ ys) h (inl same) = subst P (sym same) h.0
  In-All P x (y ∷ ys) h (inr later) = In-All P x ys h.1 later

module _ {Item World : Type 0} (deps : DrainDependencies Item World) where
  -- The items of a log behind a position, up to another.
  abbrev pub between : ℕ → ℕ → Item → Bool
  between from to item = ltb from (deps.position_of item) && leb (deps.position_of item) to

  abbrev pub Answers : List Item → ℕ → Result DrainFailure (DrainBatch Item) → Type 0
  Answers log from (err failure) = Unit
  Answers log from (ok batch) = batch.items ≡ filter (between from batch.scanned_to) log

  -- A feed over a log: a read answers with the items behind its position, up to the position that it
  -- examined.
  pub record IsFeedOf (log : List Item) : Type 0 where
    pub ascending : Ascending deps.position_of log
    pub answers : (from limit : ℕ) (w : World) → Answers log from (deps.read from limit w)

  -- Every item of the log behind `from`, up to the cursor, was stepped on successfully.
  abbrev pub Delivers : List Item → ℕ → Drain Item World → Type 0
  Delivers log from d =
      (item : Item)
      → In item log
      → from < deps.position_of item
      → deps.position_of item ≤ d.cursor
      → In (stepped item) d.trace
