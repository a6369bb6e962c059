-- ===== src/Sorting/Laws.antt =====
-- Sorting keeps the elements, and puts none before one that it is greater than.
use mathlib.Core.List.{Perm}
use mathlib.Core.List.Perm
use music_downloader.Prelude.{
  ℕ, ◌≤◌, true, false, List, [], ◌∷◌, ◌≡◌, arith, All, Bool-cases, inl, inr,
}
use music_downloader.Sorting.{Sign, is_plus, insert, to_sorted}

module _ {ℓ} {A : Type ℓ} (cmp : A → A → Sign) where
  insert-perm : (x : A) (xs : List A) → Perm (insert cmp x xs) (x ∷ xs)
  unfolding insert
  insert-perm x [] = Perm.refl (x ∷ [])
  insert-perm x (y ∷ ys) = elim (Bool-cases (is_plus (cmp x y))) [
    | inl behind ↦ rw behind (Perm.trans (Perm.cons y (insert-perm x ys)) (Perm.swap x y ys))
    | inr before ↦ rw before (Perm.refl (x ∷ y ∷ ys))
  ]

  pub to_sorted-perm : (xs : List A) → Perm (to_sorted cmp xs) xs
  unfolding to_sorted
  to_sorted-perm [] = Perm.refl []
  to_sorted-perm (x ∷ xs) =
      Perm.trans (insert-perm x (to_sorted cmp xs)) (Perm.cons x (to_sorted-perm xs))

  module _ {κ} (P : A → Type κ) where
    insert-All : (x : A) (xs : List A) → P x → All P xs → All P (insert cmp x xs)
    unfolding insert
    insert-All x [] hx h = (hx, tt)
    insert-All x (y ∷ ys) hx h = ground (arith, insert-All x ys hx h.1)

    pub to_sorted-All : (xs : List A) → All P xs → All P (to_sorted cmp xs)
    unfolding to_sorted
    to_sorted-All [] h = tt
    to_sorted-All (x ∷ xs) h = insert-All x (to_sorted cmp xs) h.0 (to_sorted-All xs h.1)

-- By rising grades.
abbrev pub Rising : {A : Type 0} → (A → ℕ) → List A → Type 0
Rising grade [] = Unit
Rising grade (x ∷ xs) = All (λ y. grade x ≤ grade y) xs × Rising grade xs

All-le :
    {A : Type 0} (grade : A → ℕ) (m n : ℕ) (xs : List A)
    → m ≤ n
    → All (λ y. n ≤ grade y) xs
    → All (λ y. m ≤ grade y) xs
All-le grade m n [] h all = tt
All-le grade m n (x ∷ xs) h all = (omega arith, All-le grade m n xs h all.1)

-- Where the comparator never answers against the grades, sorting makes them rise.
module _ {A : Type 0} (cmp : A → A → Sign) (grade : A → ℕ) (P : A → Type 0)
    (greater : (x y : A) → P x → P y → is_plus (cmp x y) ≡ true → grade y ≤ grade x)
    (not_greater : (x y : A) → P x → P y → is_plus (cmp x y) ≡ false → grade x ≤ grade y) where
  insert-Rising :
      (x : A) (xs : List A) → P x → All P xs → Rising grade xs → Rising grade (insert cmp x xs)
  unfolding insert
  insert-Rising x [] hx h r = (tt, tt)
  insert-Rising x (y ∷ ys) hx h r = elim (Bool-cases (is_plus (cmp x y))) [
    | inl behind ↦ rw behind (
      insert-All cmp (λ z. grade y ≤ grade z) x ys (greater x y hx h.0 behind) r.0,
      insert-Rising x ys hx h.1 r.1,
    )
    | inr before ↦
        let below : grade x ≤ grade y = not_greater x y hx h.0 before in
        rw before ((below, All-le grade (grade x) (grade y) ys below r.0), r)
  ]

  pub to_sorted-Rising : (xs : List A) → All P xs → Rising grade (to_sorted cmp xs)
  unfolding to_sorted
  to_sorted-Rising [] h = tt
  to_sorted-Rising (x ∷ xs) h =
      insert-Rising x (to_sorted cmp xs) h.0 (to_sorted-All cmp P xs h.1) (to_sorted-Rising xs h.1)
