-- ===== src/Text/Order.antt =====
-- Go's `<` on strings is a strict total order.
use text.Mathlib.TextEquality.{Char-path}
use aiyolo.Base.{String, ◌≡◌, refl, true, false, arith}
use aiyolo.Text.{str_lt}

pub str_lt_irrefl : (s : String) → str_lt s s ≡ false
unfolding str_lt
str_lt_irrefl String.[] = refl
str_lt_irrefl (String.◌∷◌ c s) = ground (arith, str_lt_irrefl s)

pub str_lt_trans : (s t u : String) → str_lt s t ≡ true → str_lt t u ≡ true → str_lt s u ≡ true
unfolding str_lt
str_lt_trans String.[] String.[] u h k = cc
str_lt_trans String.[] (String.◌∷◌ d t) String.[] h k = cc
str_lt_trans String.[] (String.◌∷◌ d t) (String.◌∷◌ e u) h k = refl
str_lt_trans (String.◌∷◌ c s) String.[] u h k = cc
str_lt_trans (String.◌∷◌ c s) (String.◌∷◌ d t) String.[] h k = cc
str_lt_trans (String.◌∷◌ c s) (String.◌∷◌ d t) (String.◌∷◌ e u) h k =
    ground (arith, str_lt_trans s t u)

-- Two texts of which neither is less are one text.
pub str_lt_connex : (s t : String) → str_lt s t ≡ false → str_lt t s ≡ false → s ≡ t
unfolding str_lt
str_lt_connex String.[] String.[] h k = refl
str_lt_connex String.[] (String.◌∷◌ d t) h k = cc
str_lt_connex (String.◌∷◌ c s) String.[] h k = cc
str_lt_connex (String.◌∷◌ c s) (String.◌∷◌ d t) h k =
    let tails : s ≡ t = str_lt_connex s t (ground arith) (ground arith) in
    let heads : c ≡ d = Char-path c d (ground arith) in cc
