-- ===== src/Gateway/Responses/Calls/Sorted.antt =====
-- `sortedChatToolCallStates` returns every call that the stream has assembled, and each of them once.
use mathlib.Core.List.{Perm, perm_middle, append-nil}
use mathlib.Core.List.Perm
use aiyolo.Base.{
  ℕ, zero, suc, ◌+◌, ◌≡◌, refl, sym, ap, ◌∙◌, subst, Bool, true, false, ◌&&◌, List, [], ◌∷◌, ◌++◌,
  none, length, ◌==◌, leb, ltb, arith, Bool-cases, inl, inr,
}
use aiyolo.Base.Int.{ℤ, pos, negsuc}
use aiyolo.Dict.{lookup, values, UniqueKeys}
use aiyolo.Gateway.Responses.Calls.{
  ToolCallState, Calls, int_key, found, calls_from, unreached, sorted_calls,
}

-- The same elements, as many.
abbrev Rearranged : List ToolCallState → List ToolCallState → Type 0
Rearranged xs ys = Perm xs ys × (length xs ≡ length ys)

same : (xs : List ToolCallState) → Rearranged xs xs
same xs = (Perm.refl xs, refl)

through : {xs ys zs : List ToolCallState} → Rearranged xs ys → Rearranged ys zs → Rearranged xs zs
through p q = (Perm.trans p.0 q.0, p.1 ∙ q.1)

under :
    (x : ToolCallState) {xs ys : List ToolCallState}
    → Rearranged xs ys
    → Rearranged (x ∷ xs) (x ∷ ys)
under x p = (Perm.cons x p.0, ap suc p.1)

length_append : (xs ys : List ToolCallState) → length (xs ++ ys) ≡ length xs + length ys
length_append [] ys = omega arith
length_append (x ∷ xs) ys = omega (arith, length_append xs ys)

behind :
    (xs : List ToolCallState) {ys zs : List ToolCallState}
    → Rearranged ys zs
    → Rearranged (xs ++ ys) (xs ++ zs)
behind xs {ys} {zs} p =
    (Perm.append_left xs p.0, omega (arith, length_append xs ys, length_append xs zs, p.1))

before :
    {xs ys : List ToolCallState} (zs : List ToolCallState)
    → Rearranged xs ys
    → Rearranged (xs ++ zs) (ys ++ zs)
before {xs} {ys} zs p =
    (Perm.append_right zs p.0, omega (arith, length_append xs zs, length_append ys zs, p.1))

to_front :
    (x : ToolCallState) (xs ys : List ToolCallState) → Rearranged (xs ++ (x ∷ ys)) (x ∷ (xs ++ ys))
to_front x xs ys =
    (perm_middle xs ys, omega (arith, length_append xs (x ∷ ys), length_append xs ys))

-- Whether an index is one of some that are looked up.
abbrev is_between : ℕ → ℕ → ℤ → Bool
is_between index count (pos n) = leb index n && ltb n (index + count)
is_between index count (negsuc n) = false

-- A further entry of the map, at an index that is looked up or is not.
calls_from_other :
    (index count : ℕ) (key : ℤ) (item : ToolCallState) (calls : Calls)
    → is_between index count key ≡ false
    → calls_from index count ((key, item) ∷ calls) ≡ calls_from index count calls
unfolding calls_from lookup
calls_from_other index zero key item calls h = refl
calls_from_other index (suc count) (negsuc n) item calls h =
    ap (λ l. found (lookup (pos index) calls) ++ l)
      (calls_from_other (index + 1) count (negsuc n) item calls refl)
calls_from_other index (suc count) (pos n) item calls h =
    let apart : (n == index) ≡ false = ground (arith, h) in
    rw apart (
      ap (λ l. found (lookup (pos index) calls) ++ l)
        (calls_from_other (index + 1) count (pos n) item calls (ground (arith, h))))

of_eq : {xs ys : List ToolCallState} → xs ≡ ys → Rearranged xs ys
of_eq {xs} e = subst (λ l. Rearranged xs l) e (same xs)

calls_from_here :
    (count n : ℕ) (item : ToolCallState) (calls : Calls)
    → lookup (pos n) calls ≡ none
    → calls_from n (suc count) ((pos n, item) ∷ calls) ≡ item ∷ calls_from n (suc count) calls
unfolding calls_from lookup
calls_from_here count n item calls new =
    let here : (n == n) ≡ true = ground arith in
    rw (here, new)
      (ap (λ (l : List ToolCallState). item ∷ l)
        (calls_from_other (n + 1) count (pos n) item calls (ground arith)))

calls_from_there :
    (index count n : ℕ) (item : ToolCallState) (calls : Calls)
    → (n == index) ≡ false
    → Rearranged
        (calls_from (index + 1) count ((pos n, item) ∷ calls))
        (item ∷ calls_from (index + 1) count calls)
    → Rearranged
        (calls_from index (suc count) ((pos n, item) ∷ calls))
        (item ∷ calls_from index (suc count) calls)
unfolding calls_from lookup
calls_from_there index count n item calls e later = rw e (
    through (behind (found (lookup (pos index) calls)) later)
      (to_front item (found (lookup (pos index) calls)) (calls_from (index + 1) count calls)))

calls_from_found :
    (index count n : ℕ) (item : ToolCallState) (calls : Calls)
    → is_between index count (pos n) ≡ true
    → lookup (pos n) calls ≡ none
    → Rearranged
        (calls_from index count ((pos n, item) ∷ calls))
        (item ∷ calls_from index count calls)
calls_from_found index zero n item calls h new = absurd (ground (arith, h))
calls_from_found index (suc count) n item calls h new = elim (Bool-cases (n == index)) [
  | inl e ↦
      let here : index ≡ n = ground (arith, e) in
      subst
        (λ i.
          Rearranged (calls_from i (suc count) ((pos n, item) ∷ calls))
            (item ∷ calls_from i (suc count) calls))
        (sym here) (of_eq (calls_from_here count n item calls new))
  | inr e ↦
      calls_from_there index count n item calls e
        (calls_from_found (index + 1) count n item calls (ground (arith, h, e)) new)
]

calls_from_nothing : (index count : ℕ) → calls_from index count [] ≡ []
unfolding calls_from lookup
calls_from_nothing index zero = refl
calls_from_nothing index (suc count) = calls_from_nothing (index + 1) count

-- One more entry of the map, reached by the loop or not.
one_more :
    (bound : ℕ) (key : ℤ) (item : ToolCallState) (calls : Calls)
    → lookup key calls ≡ none
    → Rearranged
        (calls_from 0 bound ((key, item) ∷ calls) ++ unreached bound ((key, item) ∷ calls))
        (item ∷ (calls_from 0 bound calls ++ unreached bound calls))
unfolding unreached
one_more bound (negsuc n) item calls new =
    rw (calls_from_other 0 bound (negsuc n) item calls refl)
      (to_front item (calls_from 0 bound calls) (unreached bound calls))
one_more bound (pos n) item calls new = elim (Bool-cases (ltb n bound)) [
  | inl e ↦ rw e (
      before (unreached bound calls)
        (calls_from_found 0 bound n item calls (ground (arith, e)) new))
  | inr e ↦ rw e (
      rw (calls_from_other 0 bound (pos n) item calls (ground (arith, e)))
        (to_front item (calls_from 0 bound calls) (unreached bound calls)))
]

-- The calls at the small indexes, and the others, are all.
all_calls :
    (bound : ℕ) (calls : Calls)
    → UniqueKeys calls
    → Rearranged (calls_from 0 bound calls ++ unreached bound calls) (values calls)
unfolding values
all_calls bound [] u = unfold unreached in rw (calls_from_nothing 0 bound) (same [])
all_calls bound ((key, item) ∷ calls) u =
    through (one_more bound key item calls u.0) (under item (all_calls bound calls u.1))

length-values : (calls : Calls) → length (values calls) ≡ length calls
unfolding values
length-values [] = refl
length-values ((key, item) ∷ calls) = omega (arith, length-values calls)

nothing_left : (xs : List ToolCallState) → length xs ≡ 0 → xs ≡ []
nothing_left [] h = refl
nothing_left (x ∷ xs) h = absurd (omega arith)

-- The calls that are returned are the values of the map, each of them once, whatever their indexes are:
-- none is lost and none is doubled.
pub sorted_calls-perm :
    (calls : Calls) → UniqueKeys calls → Perm (sorted_calls calls) (values calls)
unfolding sorted_calls
sorted_calls-perm calls u =
    let bound = length calls + 8 in
    let result = calls_from 0 bound calls in
    let all = all_calls bound calls u in
    elim (Bool-cases (length result == length calls)) [
      | inl e ↦ rw e (
          let rest : unreached bound calls ≡ [] = nothing_left (unreached bound calls) (
            ground (
              arith,
              e,
              all.1,
              length-values calls,
              length_append result (unreached bound calls),
            )) in
          subst (λ l. Perm l (values calls)) (append-nil result)
            (subst (λ l. Perm (result ++ l) (values calls)) rest all.0))
      | inr e ↦ rw e all.0
    ]
