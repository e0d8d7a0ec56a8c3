-- ===== src/Text/Trim.antt =====
-- `TrimSpace` and `ToLower` are idempotent, together and apart.
use Prim.Native.Char.{Char, code}
use Prim.Native.String.{char_at, count}
use text.Mathlib.TextEquality.{Char-path}
use text.Mathlib.TextLemmas.{length-cons}
use native.Mathlib.Nat.{le_refl}
use aiyolo.Base.{
  ℕ, zero, suc, ◌+◌, ◌-◌, ◌≤◌, ◌<◌, String, ◌≡◌, refl, ap, Bool, true, false, ◌&&◌, leb, ◌==◌,
  if◌then◌else◌, arith, Bool-cases, inl, inr,
}
use aiyolo.Text.{
  is_space, is_blank, trim_left_space, trim_right_space, trim_space, lower_char, to_lower,
}

-- The alphabet, checked letter by letter.
module _ (p : ℕ → Bool) where
  checked_up_to : ℕ → Bool
  checked_up_to zero = true
  checked_up_to (suc last) = checked_up_to last && p last

  checked_up_to_lem : (count k : ℕ) → k < count → checked_up_to count ≡ true → p k ≡ true
  unfolding checked_up_to
  checked_up_to_lem zero k below c = absurd (omega (arith, below))
  checked_up_to_lem (suc last) k below c = ground (arith, checked_up_to_lem last k)

alphabet_table :
    checked_up_to (λ k. code (char_at "abcdefghijklmnopqrstuvwxyz" k) == 97 + k) 26 ≡ true
unfolding checked_up_to
alphabet_table = refl

alphabet : (k : ℕ) → k < 26 → code (char_at "abcdefghijklmnopqrstuvwxyz" k) ≡ 97 + k
alphabet k h = ground (arith, checked_up_to_lem _ 26 k h alphabet_table)

code-lower_char :
    (c : Char)
    → code (lower_char c) ≡ (if leb 65 (code c) && leb (code c) 90 then code c + 32 else code c)
unfolding lower_char
code-lower_char c = ground (arith, alphabet (code c - 65))

lower_char_idem : (c : Char) → lower_char (lower_char c) ≡ lower_char c
lower_char_idem c =
    Char-path _ _ (ground (arith, code-lower_char c, code-lower_char (lower_char c)))

is_space-lower_char : (c : Char) → is_space (code (lower_char c)) ≡ is_space (code c)
unfolding is_space
is_space-lower_char c =
    rw (code-lower_char c) (elim (Bool-cases (leb 65 (code c) && leb (code c) 90)) [
      | inl upper ↦ rw upper (ground arith)
      | inr other ↦ rw other
    ])

is_blank-to_lower : (s : String) → is_blank (to_lower s) ≡ is_blank s
unfolding to_lower
is_blank-to_lower String.[] = refl
is_blank-to_lower (String.◌∷◌ c s) = refl

to_lower_idem : (s : String) → to_lower (to_lower s) ≡ to_lower s
unfolding to_lower
to_lower_idem String.[] = refl
to_lower_idem (String.◌∷◌ c s) = cc (lower_char_idem c, to_lower_idem s)

trim_left_space-to_lower :
    (s : String) → trim_left_space (to_lower s) ≡ to_lower (trim_left_space s)
unfolding to_lower trim_left_space
trim_left_space-to_lower String.[] = refl
trim_left_space-to_lower (String.◌∷◌ c s) =
    ground (arith, is_space-lower_char c, trim_left_space-to_lower s)

trim_right_space-to_lower :
    (s : String) → trim_right_space (to_lower s) ≡ to_lower (trim_right_space s)
unfolding to_lower trim_right_space
trim_right_space-to_lower String.[] = refl
trim_right_space-to_lower (String.◌∷◌ c s) =
    rw (is_space-lower_char c, trim_right_space-to_lower s, is_blank-to_lower (trim_right_space s))
      (elim (Bool-cases (is_space (code c) && is_blank (trim_right_space s))) [
        | inl cut ↦ rw cut
        | inr kept ↦ rw kept
      ])

-- Lower-casing and trimming commute.
pub trim_space-to_lower : (s : String) → trim_space (to_lower s) ≡ to_lower (trim_space s)
unfolding trim_space
trim_space-to_lower s = rw trim_left_space-to_lower (trim_right_space-to_lower (trim_left_space s))

trim_right_space_idem : (s : String) → trim_right_space (trim_right_space s) ≡ trim_right_space s
unfolding trim_right_space
trim_right_space_idem String.[] = refl
trim_right_space_idem (String.◌∷◌ c s) =
    elim (Bool-cases (is_space (code c) && is_blank (trim_right_space s))) [
      | inl cut ↦ rw cut
      | inr kept ↦ rw kept (rw (trim_right_space_idem s) (rw kept))
    ]

-- A text that does not begin with a space.
abbrev LeftTrimmed : String → Type 0
LeftTrimmed s = trim_left_space s ≡ s

trim_left_space-LeftTrimmed : (s : String) → LeftTrimmed (trim_left_space s)
unfolding trim_left_space
trim_left_space-LeftTrimmed String.[] = refl
trim_left_space-LeftTrimmed (String.◌∷◌ c s) = ground (arith, trim_left_space-LeftTrimmed s)

trim_left_space-length : (s : String) → count (trim_left_space s) ≤ count s
unfolding trim_left_space
trim_left_space-length String.[] = omega arith
trim_left_space-length (String.◌∷◌ c s) = elim (Bool-cases (is_space (code c))) [
  | inl space ↦ rw space (rw length-cons (omega (arith, trim_left_space-length s)))
  | inr other ↦ rw other (le_refl _)
]

first_not_space : (c : Char) (s : String) → LeftTrimmed (String.◌∷◌ c s) → is_space (code c) ≡ false
unfolding trim_left_space
first_not_space c s h = elim (Bool-cases (is_space (code c))) [
  | inr other ↦ other
  | inl space ↦ absurd (
      omega (
        arith,
        length-cons c s,
        trim_left_space-length s,
        ap count (rw (space, trim_left_space) at h),
      ))
]

trim_right_space-LeftTrimmed : (s : String) → LeftTrimmed s → LeftTrimmed (trim_right_space s)
unfolding trim_left_space trim_right_space
trim_right_space-LeftTrimmed String.[] h = refl
trim_right_space-LeftTrimmed (String.◌∷◌ c s) h =
    rw (first_not_space c s h) (rw (first_not_space c s h))

-- Trimming a second time changes nothing.
pub trim_space_idem : (s : String) → trim_space (trim_space s) ≡ trim_space s
unfolding trim_space
trim_space_idem s =
    rw (trim_right_space-LeftTrimmed (trim_left_space s) (trim_left_space-LeftTrimmed s))
      (trim_right_space_idem (trim_left_space s))

pub to_lower-trim_space_idem :
    (s : String) → to_lower (trim_space (to_lower (trim_space s))) ≡ to_lower (trim_space s)
to_lower-trim_space_idem s = rw trim_space-to_lower (rw (trim_space_idem s) (to_lower_idem _))
