-- ===== src/Json/Laws.antt =====
-- The laws of JSON values: lists and maps survive the way into a value and back.
use aiyolo.Base.{
  ◌≡◌, refl, ap, ◌∙◌, String, List, [], ◌∷◌, map, some, arith, eq_iff, if◌then◌else◌, ◌===◌,
}
use mathlib.Core.Path.{ap₂}
use aiyolo.Dict.{lookup, insert, erase, string_key}
use aiyolo.Dict.Laws.{lookup-insert, lookup-erase}
use aiyolo.Json.{Json, Map, null, elements, entries, items_of, fields_of, get, list, dict}
use aiyolo.Json.Texts.{chat_tool_calls, maps}

pub entries-fields_of : (m : Map) → entries (fields_of m) ≡ m
entries-fields_of [] = refl
entries-fields_of ((k, v) ∷ m) = ap (λ (l : Map). (k, v) ∷ l) (entries-fields_of m)

pub elements-items_of : (vs : List Json) → elements (items_of vs) ≡ vs
elements-items_of [] = refl
elements-items_of (v ∷ vs) = ap (λ (l : List Json). v ∷ l) (elements-items_of vs)

maps-dict : (ms : List Map) → maps (map dict ms) ≡ ms
maps-dict [] = refl
maps-dict (m ∷ ms) = ap₂ (λ (x : Map) (l : List Map). x ∷ l) (entries-fields_of m) (maps-dict ms)

-- A list of objects has those objects.
pub chat_tool_calls-list : (ms : List Map) → chat_tool_calls (list (map dict ms)) ≡ ms
unfolding chat_tool_calls
chat_tool_calls-list ms = ap maps (elements-items_of (map dict ms)) ∙ maps-dict ms

pub get-insert :
    (k j : String) (v : Json) (m : Map) → get j (insert k v m) ≡ (if k === j then v else get j m)
unfolding get
get-insert k j v m = ground (arith, lookup-insert k j v m)

pub get-erase : (k j : String) (m : Map) → get j (erase k m) ≡ (if k === j then null else get j m)
unfolding get
get-erase k j m = ground (arith, lookup-erase k j m)

-- A map that has the value is not changed by setting it.
pub insert_same : (k : String) (v : Json) (m : Map) → lookup k m ≡ some v → insert k v m ≡ m
unfolding lookup insert
insert_same k v [] h = cc
insert_same k v ((j, w) ∷ m) h = ground (arith, eq_iff j k, insert_same k v m)
