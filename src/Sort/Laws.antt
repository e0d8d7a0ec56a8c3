-- ===== src/Sort/Laws.antt =====
-- A sorted list is a rearrangement, in order, that keeps equivalent elements in their places.
use mathlib.Core.List.{Perm}
use mathlib.Core.List.Perm
use aiyolo.Base.{
  ◌≡◌, refl, Bool, true, false, not, ◌&&◌, List, [], ◌∷◌, All, filter, arith, inl, inr, Bool-cases,
}
use aiyolo.Sort.{insert_sorted, sort_stable}

-- A strict weak order: nothing is less than itself, and both being less and not being less are
-- transitive.
pub record IsStrictWeak {A : Type 0} (less : A → A → Bool) : Type 0 where
  pub irrefl : (a : A) → less a a ≡ false
  pub trans : (a b c : A) → less a b ≡ true → less b c ≡ true → less a c ≡ true
  pub not_trans : (a b c : A) → less a b ≡ false → less b c ≡ false → less a c ≡ false

module _ {A : Type 0} (less : A → A → Bool) where
  -- No element is less than one before it.
  abbrev pub IsSorted : List A → Type 0
  IsSorted [] = Unit
  IsSorted (x ∷ xs) = All (λ y. less y x ≡ false) xs × IsSorted xs

  insert_sorted-perm : (x : A) (xs : List A) → Perm (insert_sorted less x xs) (x ∷ xs)
  unfolding insert_sorted
  insert_sorted-perm x [] = Perm.refl (x ∷ [])
  insert_sorted-perm x (y ∷ ys) = elim (Bool-cases (less y x)) [
    | inl before ↦ rw before (Perm.trans (Perm.cons y (insert_sorted-perm x ys)) (Perm.swap x y ys))
    | inr behind ↦ rw behind (Perm.refl (x ∷ y ∷ ys))
  ]

  pub sort_stable-perm : (xs : List A) → Perm (sort_stable less xs) xs
  unfolding sort_stable
  sort_stable-perm [] = Perm.refl []
  sort_stable-perm (x ∷ xs) =
      Perm.trans (insert_sorted-perm x (sort_stable less xs)) (Perm.cons x (sort_stable-perm xs))

  pub All-insert_sorted :
      (P : A → Type 0) (x : A) (xs : List A) → P x → All P xs → All P (insert_sorted less x xs)
  unfolding insert_sorted
  All-insert_sorted P x [] p h = (p, tt)
  All-insert_sorted P x (y ∷ ys) p h = elim (Bool-cases (less y x)) [
    | inl before ↦ rw before (h.0, All-insert_sorted P x ys p h.1)
    | inr behind ↦ rw behind (p, h)
  ]

  pub All-sort_stable : (P : A → Type 0) (xs : List A) → All P xs → All P (sort_stable less xs)
  unfolding sort_stable
  All-sort_stable P [] h = tt
  All-sort_stable P (x ∷ xs) h =
      All-insert_sorted P x (sort_stable less xs) h.0 (All-sort_stable P xs h.1)

  module _ (w : IsStrictWeak less) where
    All-behind :
        (x y : A) (ys : List A)
        → less y x ≡ false
        → All (λ z. less z y ≡ false) ys
        → All (λ z. less z x ≡ false) ys
    All-behind x y [] h a = tt
    All-behind x y (z ∷ zs) h a = (w.not_trans z y x a.0 h, All-behind x y zs h a.1)

    insert_sorted-IsSorted :
        (x : A) (xs : List A) → IsSorted xs → IsSorted (insert_sorted less x xs)
    unfolding insert_sorted
    insert_sorted-IsSorted x [] s = (tt, tt)
    insert_sorted-IsSorted x (y ∷ ys) s = elim (Bool-cases (less y x)) [
      | inl before ↦ rw before (
        All-insert_sorted (λ z. less z y ≡ false) x ys (asym x y before) s.0,
        insert_sorted-IsSorted x ys s.1,
      )
      | inr behind ↦ rw behind ((behind, All-behind x y ys behind s.0), s)
    ]
      where
        asym : (a b : A) → less b a ≡ true → less a b ≡ false
        asym a b h = elim (Bool-cases (less a b)) [
          | inr f ↦ f
          | inl t ↦ absurd (ground (arith, w.trans a b a t h, w.irrefl a))
        ]

    pub sort_stable-IsSorted : (xs : List A) → IsSorted (sort_stable less xs)
    unfolding sort_stable
    sort_stable-IsSorted [] = tt
    sort_stable-IsSorted (x ∷ xs) =
        insert_sorted-IsSorted x (sort_stable less xs) (sort_stable-IsSorted xs)

    -- Neither of two elements is less.
    abbrev pub equivalent : A → A → Bool
    equivalent a b = not (less a b) && not (less b a)

    insert_sorted-filter :
        (a x : A) (xs : List A)
        → filter (equivalent a) (insert_sorted less x xs) ≡ filter (equivalent a) (x ∷ xs)
    unfolding insert_sorted filter
    insert_sorted-filter a x [] = refl
    insert_sorted-filter a x (y ∷ ys) = elim (Bool-cases (less y x)) [
      | inr behind ↦ rw behind
      | inl before ↦
          rw before (ground (arith, insert_sorted-filter a x ys, w.not_trans y a x, w.trans y a x))
    ]

    -- Equivalent elements keep their order.
    pub sort_stable-filter :
        (a : A) (xs : List A)
        → filter (equivalent a) (sort_stable less xs) ≡ filter (equivalent a) xs
    unfolding sort_stable filter
    sort_stable-filter a [] = refl
    sort_stable-filter a (x ∷ xs) =
        ground (arith, insert_sorted-filter a x (sort_stable less xs), sort_stable-filter a xs)
