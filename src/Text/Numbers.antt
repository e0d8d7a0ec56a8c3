-- ===== src/Text/Numbers.antt =====
-- Go's `strconv.Atoi`, for texts of at most 64 bits.
use Prim.Native.Char.{Char, code}
use aiyolo.Base.{
  ℕ, ◌+◌, ◌-◌, ◌*◌, ◌^◌, String, Bool, true, false, ◌&&◌, leb, ltb, ◌==◌, if◌then◌else◌, Option,
  none, some,
}
use aiyolo.Base.Int.{ℤ, pos, sub_ℕ}

abbrev is_digit : Char → Bool
is_digit c = leb 48 (code c) && leb (code c) 57

-- The number that decimal digits add to one that is read.
pub digits_from : ℕ → String → Option ℕ
digits_from n String.[] = some n
digits_from n (String.◌∷◌ c s) =
    let rest = digits_from (n * 10 + (code c - 48)) s in if is_digit c then rest else none

pub digits : String → Option ℕ
unfolding digits_from
digits String.[] = none
digits (String.◌∷◌ c s) = digits_from 0 (String.◌∷◌ c s)

-- A number of 64 bits, which is at least -2 ^ 63 and below 2 ^ 63.
abbrev in_range : Bool → Option ℕ → Option ℤ
in_range negative none = none
in_range true (some n) = if leb n (2 ^ 63) then some (sub_ℕ 0 n) else none
in_range false (some n) = if ltb n (2 ^ 63) then some (pos n) else none

-- `strconv.Atoi`; `none` is its error.
unfoldable pub atoi : String → Option ℤ
unfolding digits
atoi String.[] = none
atoi (String.◌∷◌ c s) =
    if code c == 45
    then in_range true (digits s)
    else if code c == 43
    then in_range false (digits s)
    else in_range false (digits (String.◌∷◌ c s))
