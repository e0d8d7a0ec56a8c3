-- ===== src/Json/Print.antt =====
-- What Go's `fmt.Sprint` and `json.Marshal` print of JSON values. A map is printed in the order of its
-- keys; `json.Marshal` also escapes the characters of HTML.
use Prim.Native.Char.{Char, code}
use Prim.Native.String.{char_at}
use aiyolo.Base.{
  ℕ, ◌/◌, ◌%◌, ◌≡◌, refl, String, true, false, ◌||◌, List, [], ◌∷◌, map, ltb, ◌==◌, if◌then◌else◌,
}
use aiyolo.Base.Int.{ℤ, pos}
use aiyolo.Text.{str_lt}
use aiyolo.Text.Join.{concat, join, decimal_ℤ}
use aiyolo.Sort.{sort_stable}
use aiyolo.Json.{
  Json, Items, Fields, null, bool, number, string, array, object, nil, cons, end, field, list, dict,
}

-- An `int` of the program as an `any`.
abbrev pub int : ℤ → Json
int n = number (record { integer = n; printed = decimal_ℤ n; encoded = decimal_ℤ n })

abbrev pub int_literal : ℕ → Json
int_literal n = int (pos n)

pub by_key : List (String × String) → List (String × String)
by_key = sort_stable (λ a b. str_lt a.0 b.0)

unfoldable mutual
  -- `fmt.Sprint`, and the same for the values in a container.
  pub sprint : Json → String
  sprint null = "<nil>"
  sprint (bool true) = "true"
  sprint (bool false) = "false"
  sprint (number n) = n.printed
  sprint (string s) = s
  sprint (array vs) = concat ("[" ∷ join " " (sprint_items vs) ∷ "]" ∷ [])
  sprint (object fs) = concat (
      "map["
      ∷ join " " (map (λ e. concat (e.0 ∷ ":" ∷ e.1 ∷ [])) (by_key (sprint_fields fs)))
      ∷ "]"
      ∷ [])

  pub sprint_items : Items → List String
  sprint_items nil = []
  sprint_items (cons v vs) = sprint v ∷ sprint_items vs

  pub sprint_fields : Fields → List (String × String)
  sprint_fields end = []
  sprint_fields (field k v fs) = (k, sprint v) ∷ sprint_fields fs

hex : ℕ → String
hex n = String.◌∷◌ (char_at "0123456789abcdef" (n % 16)) ""

-- A character in a JSON string, as `json.Marshal` writes it.
escape_char : Char → String
unfolding hex
escape_char c =
    if code c == 34
    then "\\\""
    else if code c == 92
    then "\\\\"
    else if code c == 8
    then "\\b"
    else if code c == 9
    then "\\t"
    else if code c == 10
    then "\\n"
    else if code c == 12
    then "\\f"
    else if code c == 13
    then "\\r"
    else if ltb (code c) 32 || code c == 38 || code c == 60 || code c == 62
    then concat ("\\u00" ∷ hex (code c / 16) ∷ hex (code c) ∷ [])
    else if code c == 8232
    then "\\u2028"
    else if code c == 8233
    then "\\u2029"
    else String.◌∷◌ c ""

escape : String → List String
escape String.[] = []
escape (String.◌∷◌ c s) = escape_char c ∷ escape s

pub quoted : String → String
unfolding escape escape_char
quoted s = concat ("\"" ∷ concat (escape s) ∷ "\"" ∷ [])

unfoldable mutual
  -- `json.Marshal`.
  pub marshal : Json → String
  marshal null = "null"
  marshal (bool true) = "true"
  marshal (bool false) = "false"
  marshal (number n) = n.encoded
  marshal (string s) = quoted s
  marshal (array vs) = concat ("[" ∷ join "," (marshal_items vs) ∷ "]" ∷ [])
  marshal (object fs) = concat (
      "{"
      ∷ join "," (map (λ e. concat (quoted e.0 ∷ ":" ∷ e.1 ∷ [])) (by_key (marshal_fields fs)))
      ∷ "}"
      ∷ [])

  pub marshal_items : Items → List String
  marshal_items nil = []
  marshal_items (cons v vs) = marshal v ∷ marshal_items vs

  pub marshal_fields : Fields → List (String × String)
  marshal_fields end = []
  marshal_fields (field k v fs) = (k, marshal v) ∷ marshal_fields fs

marshal_sorted :
    marshal (dict (("b", string "<x>\n") ∷ ("a", list (int_literal 12 ∷ null ∷ [])) ∷ []))
    ≡ "{\"a\":[12,null],\"b\":\"\\u003cx\\u003e\\n\"}"
unfolding marshal quoted by_key join sort_stable str_lt decimal_ℤ aiyolo.Text.Join.decimal
marshal_sorted = refl

sprint_nested :
    sprint (dict (("b", string "x y") ∷ ("a", list (bool true ∷ null ∷ [])) ∷ []))
    ≡ "map[a:[true <nil>] b:x y]"
unfolding sprint by_key join sort_stable str_lt
sprint_nested = refl
