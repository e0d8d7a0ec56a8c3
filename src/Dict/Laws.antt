-- ===== src/Dict/Laws.antt =====
-- The laws of the map operations.
use aiyolo.Base.{ℕ, ◌+◌, ◌≤◌, ◌≡◌, ◌≢◌, refl, Bool, [], ◌∷◌, ◌++◌, none, some, arith, if◌then◌else◌}
use aiyolo.Dict.{Key, Dict, lookup, insert, erase, UniqueKeys, delete_where, total, weight}

module _ {K V : Type 0} ⦃e : Key K⦄ where
  pub lookup-insert :
      (k j : K) (v : V) (m : Dict K V)
      → lookup j (insert k v m) ≡ (if e.beq k j then some v else lookup j m)
  unfolding lookup insert
  lookup-insert k j v [] = refl
  lookup-insert k j v ((i, w) ∷ m) =
      ground (arith, e.beq_iff k j, e.beq_iff i k, e.beq_iff i j, lookup-insert k j v m)

  pub lookup-insert_self : (k : K) (v : V) (m : Dict K V) → lookup k (insert k v m) ≡ some v
  lookup-insert_self k v m = rw (lookup-insert, (e.beq_iff k k).1 refl)

  pub lookup-insert_ne :
      (k j : K) (v : V) (m : Dict K V) → k ≢ j → lookup j (insert k v m) ≡ lookup j m
  lookup-insert_ne k j v m h = ground (arith, lookup-insert k j v m, e.beq_iff k j)

  pub lookup-erase :
      (k j : K) (m : Dict K V) → lookup j (erase k m) ≡ (if e.beq k j then none else lookup j m)
  unfolding lookup erase
  lookup-erase k j [] = ground arith
  lookup-erase k j ((i, w) ∷ m) =
      ground (arith, e.beq_iff k j, e.beq_iff i k, e.beq_iff i j, lookup-erase k j m)

  pub insert-UniqueKeys : (k : K) (v : V) (m : Dict K V) → UniqueKeys m → UniqueKeys (insert k v m)
  unfolding insert lookup
  insert-UniqueKeys k v [] h = (refl, tt)
  insert-UniqueKeys k v ((i, w) ∷ m) h =
      ground
        (arith, e.beq_iff i k, e.beq_iff k i, insert-UniqueKeys k v m h.1, lookup-insert k i v m)

  -- What the front of a list of entries has, the whole list has.
  pub lookup-append :
      (k : K) (v : V) (m n : Dict K V) → lookup k m ≡ some v → lookup k (m ++ n) ≡ some v
  unfolding lookup
  lookup-append k v [] n h = cc h
  lookup-append k v ((i, w) ∷ m) n h = ground (arith, h, lookup-append k v m n)

  pub lookup-delete_where-none :
      (p : K → V → Bool) (k : K) (m : Dict K V)
      → lookup k m ≡ none
      → lookup k (delete_where p m) ≡ none
  unfolding lookup delete_where
  lookup-delete_where-none p k [] h = refl
  lookup-delete_where-none p k ((i, w) ∷ m) h = ground (arith, lookup-delete_where-none p k m)

  pub delete_where-UniqueKeys :
      (p : K → V → Bool) (m : Dict K V) → UniqueKeys m → UniqueKeys (delete_where p m)
  unfolding delete_where
  delete_where-UniqueKeys p [] h = tt
  delete_where-UniqueKeys p ((i, w) ∷ m) h =
      ground (arith, delete_where-UniqueKeys p m h.1, lookup-delete_where-none p i m h.0)

  -- What a lookup finds after the deletion, where the keys are unique.
  pub lookup-delete_where-some :
      (p : K → V → Bool) (k : K) (v : V) (m : Dict K V)
      → lookup k m ≡ some v
      → UniqueKeys m
      → lookup k (delete_where p m) ≡ (if p k v then none else some v)
  unfolding lookup delete_where
  lookup-delete_where-some p k v [] h u = cc
  lookup-delete_where-some p k v ((i, w) ∷ m) h u =
      ground
        (arith, e.beq_iff i k, lookup-delete_where-some p k v m, lookup-delete_where-none p k m)

  -- An insertion replaces the weight of what it overwrites.
  pub total-insert :
      (f : V → ℕ) (k : K) (v : V) (m : Dict K V)
      → total f (insert k v m) + weight f (lookup k m) ≡ total f m + f v
  unfolding total insert lookup
  total-insert f k v [] = omega arith
  total-insert f k v ((i, w) ∷ m) = ground (arith, total-insert f k v m)

module _ {K V : Type 0} where
  -- A smaller weight has a smaller total.
  pub total_mono : (f g : V → ℕ) (m : Dict K V) → ((v : V) → f v ≤ g v) → total f m ≤ total g m
  unfolding total
  total_mono f g [] h = omega arith
  total_mono f g ((k, v) ∷ m) h = omega (arith, h v, total_mono f g m h)
