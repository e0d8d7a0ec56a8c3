-- ===== src/Text/Join.antt =====
-- Go's concatenation of strings, `strings.Join`, `strings.TrimPrefix` and decimal digits.
use Prim.Native.Char.{code}
use Prim.Native.String.{◌++◌, char_at}
use text.Mathlib.TextLemmas.{nil-append, cons-append}
use aiyolo.Base.{
  arith, ℕ, zero, suc, ◌/◌, ◌%◌, ◌≡◌, refl, String, List, [], ◌∷◌, ltb, ◌==◌, ◌===◌, ◌||◌, Bool,
  if◌then◌else◌,
}
use aiyolo.Base.Int.{ℤ, pos, negsuc}

-- `a + b + …`
abbrev pub concat : List String → String
concat [] = ""
concat (s ∷ ss) = s ++ concat ss

-- `strings.Join(parts, separator)`
unfoldable pub join : String → List String → String
join separator [] = ""
join separator (s ∷ []) = s
join separator (s ∷ t ∷ ss) = s ++ (separator ++ join separator (t ∷ ss))

-- `strings.TrimPrefix(text, prefix)`
abbrev pub drop_prefix : String → String → String → String
drop_prefix whole String.[] rest = rest
drop_prefix whole (String.◌∷◌ c p) String.[] = whole
drop_prefix whole (String.◌∷◌ c p) (String.◌∷◌ d rest) =
    let next = drop_prefix whole p rest in if code c == code d then next else whole

unfoldable pub trim_prefix : String → String → String
trim_prefix text prefix = drop_prefix text prefix text

pub drop_prefix-append : (whole p s : String) → drop_prefix whole p (p ++ s) ≡ s
drop_prefix-append whole String.[] s = nil-append s
drop_prefix-append whole (String.◌∷◌ c p) s =
    rw (cons-append c p s) (ground (arith, drop_prefix-append whole p s))

-- `strings.HasSuffix(text, suffix)`
unfoldable pub has_suffix : String → String → Bool
has_suffix String.[] suffix = "" === suffix
has_suffix (String.◌∷◌ c s) suffix = String.◌∷◌ c s === suffix || has_suffix s suffix

-- `strings.TrimSuffix(text, suffix)`
unfoldable pub trim_suffix : String → String → String
trim_suffix String.[] suffix = ""
trim_suffix (String.◌∷◌ c s) suffix =
    let rest = trim_suffix s suffix in if String.◌∷◌ c s === suffix then "" else String.◌∷◌ c rest

digit : ℕ → String
digit n = String.◌∷◌ (char_at "0123456789" n) ""

-- The decimal digits; the fuel is the number itself, which a division by 10 makes smaller.
decimal_in : ℕ → ℕ → String
unfolding digit
decimal_in zero n = digit (n % 10)
decimal_in (suc fuel) n =
    let higher = decimal_in fuel (n / 10) in if ltb n 10 then digit n else higher ++ digit (n % 10)

unfoldable pub decimal : ℕ → String
unfolding decimal_in
decimal n = decimal_in n n

unfoldable pub decimal_ℤ : ℤ → String
decimal_ℤ (pos n) = decimal n
decimal_ℤ (negsuc n) = "-" ++ decimal (suc n)

decimal_1932 : decimal 1932 ≡ "1932"
unfolding decimal
decimal_1932 = refl

join_three : join ", " ("a" ∷ "b" ∷ "c" ∷ []) ≡ "a, b, c"
unfolding join
join_three = refl
