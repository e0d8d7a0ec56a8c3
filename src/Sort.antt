-- ===== src/Sort.antt =====
-- Go's `sort.Slice` and `sort.SliceStable`, as a stable insertion sort by the `less` that they are
-- given. Where `less` is a strict weak order, `SliceStable` has this result and no other; `Slice` has
-- it up to the order of elements of which neither is less.
pub mod Laws
pub mod Orders
use aiyolo.Base.{Bool, List, [], ◌∷◌, if◌then◌else◌}

module _ {A : Type 0} (less : A → A → Bool) where
  unfoldable pub insert_sorted : A → List A → List A
  insert_sorted x [] = x ∷ []
  insert_sorted x (y ∷ ys) =
      let later = y ∷ insert_sorted x ys in if less y x then later else x ∷ y ∷ ys

  unfoldable pub sort_stable : List A → List A
  unfolding insert_sorted
  sort_stable [] = []
  sort_stable (x ∷ xs) = insert_sorted x (sort_stable xs)
