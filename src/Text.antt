-- ===== src/Text.antt =====
-- The functions of Go's `strings` package that the program calls. A Go string is modelled by its
-- code points, so it is valid UTF-8; Go's order on the bytes is the order on the code points.
pub mod Trim
pub mod Order
pub mod Keys
pub mod Numbers
pub mod Join
use Prim.Native.Char.{Char, code}
use Prim.Native.String.{[] as nil_text, ◌∷◌ as cons_text, char_at}
use aiyolo.Base.{
  ℕ, ◌-◌, String, Bool, true, false, ◌&&◌, ◌||◌, leb, ltb, ◌==◌, if◌then◌else◌, List, [], ◌∷◌,
}

-- `unicode.IsSpace`.
pub is_space : ℕ → Bool
is_space n =
    leb 9 n && leb n 13
    || n == 32
    || n == 133
    || n == 160
    || n == 5760
    || leb 8192 n && leb n 8202
    || n == 8232
    || n == 8233
    || n == 8239
    || n == 8287
    || n == 12288

abbrev pub is_blank : String → Bool
is_blank String.[] = true
is_blank (String.◌∷◌ c s) = false

pub trim_left_space : String → String
trim_left_space String.[] = ""
trim_left_space (String.◌∷◌ c s) = if is_space (code c) then trim_left_space s else String.◌∷◌ c s

pub trim_right_space : String → String
trim_right_space String.[] = ""
trim_right_space (String.◌∷◌ c s) =
    let rest = trim_right_space s in
    if is_space (code c) && is_blank rest then "" else String.◌∷◌ c rest

-- `strings.TrimSpace`.
unfoldable pub trim_space : String → String
unfolding trim_left_space trim_right_space is_space
trim_space s = trim_right_space (trim_left_space s)

-- The lower-case letter of an ASCII letter; other characters are kept. Go also folds the letters
-- outside ASCII, which no name that the program compares with has.
pub lower_char : Char → Char
lower_char c =
    if leb 65 (code c) && leb (code c) 90
    then char_at "abcdefghijklmnopqrstuvwxyz" (code c - 65)
    else c

-- `strings.ToLower`.
unfoldable pub to_lower : String → String
unfolding lower_char
to_lower String.[] = ""
to_lower (String.◌∷◌ c s) = String.◌∷◌ (lower_char c) (to_lower s)

-- `strings.HasPrefix`.
unfoldable pub has_prefix : String → String → Bool
has_prefix s String.[] = true
has_prefix String.[] (String.◌∷◌ d t) = false
has_prefix (String.◌∷◌ c s) (String.◌∷◌ d t) = code c == code d && has_prefix s t

-- `strings.Contains`.
unfoldable pub contains_text : String → String → Bool
unfolding has_prefix
contains_text String.[] t = is_blank t
contains_text (String.◌∷◌ c s) t = has_prefix (String.◌∷◌ c s) t || contains_text s t

-- Go's `<` on strings.
unfoldable pub str_lt : String → String → Bool
str_lt String.[] String.[] = false
str_lt String.[] (String.◌∷◌ d t) = true
str_lt (String.◌∷◌ c s) String.[] = false
str_lt (String.◌∷◌ c s) (String.◌∷◌ d t) = ltb (code c) (code d) || code c == code d && str_lt s t

-- The first of some texts that is not blank, as `firstNonEmptyString` finds it.
unfoldable pub first_non_empty : List String → String
unfolding trim_space
first_non_empty [] = ""
first_non_empty (s ∷ ss) = if is_blank (trim_space s) then first_non_empty ss else s
