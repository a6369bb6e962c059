-- ===== src/Sorting.antt =====
-- `toSorted` with a comparator, and the signs that a comparator answers by.
pub mod Laws
use music_downloader.Prelude.{ℕ, Bool, true, false, List, [], ◌∷◌, ltb, ◌==◌, if◌then◌else◌}

-- The sign of a comparator's number; the difference of two infinities is not a number.
pub data Sign : Type 0 where
  minus balanced plus not_a_number : Sign

abbrev pub difference : ℕ → ℕ → Sign
difference a b = if ltb a b then minus else if a == b then balanced else plus

-- Only a positive number puts the first argument behind the second.
abbrev pub is_plus : Sign → Bool
is_plus plus = true
is_plus _ = false

-- `toSorted` is stable: an element stays before those that it is not greater than.
module _ {ℓ} {A : Type ℓ} (cmp : A → A → Sign) where
  unfoldable pub insert : A → List A → List A
  insert x [] = x ∷ []
  insert x (y ∷ ys) = if is_plus (cmp x y) then y ∷ insert x ys else x ∷ y ∷ ys

  unfoldable pub to_sorted : List A → List A
  unfolding insert
  to_sorted [] = []
  to_sorted (x ∷ xs) = insert x (to_sorted xs)
