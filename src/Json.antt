-- ===== src/Json.antt =====
-- JSON as Go's encoding/json decodes it into `any`: `null` is nil, an object is a `map[string]any`,
-- an array a `[]any`, and a number a `float64`, of which the program reads its integer and its texts.
pub mod Print
pub mod Texts
pub mod Laws
use aiyolo.Base.{String, Bool, true, false, List, [], ◌∷◌, Option, none, some}
use aiyolo.Base.Int.{ℤ}
use aiyolo.Dict.{Dict, lookup, string_key}

-- `int(x)`, and what `fmt.Sprint` and `json.Marshal` print of it.
pub record Number : Type 0 where
  pub integer : ℤ
  pub printed : String
  pub encoded : String

mutual
  pub data Json : Type 0 where
    null : Json
    bool : Bool → Json
    number : Number → Json
    string : String → Json
    array : Items → Json
    object : Fields → Json

  pub data Items : Type 0 where
    nil : Items
    cons : Json → Items → Items

  pub data Fields : Type 0 where
    end : Fields
    field : String → Json → Fields → Fields

-- A `map[string]any`.
abbrev pub Map : Type 0
Map = Dict String Json

abbrev pub elements : Items → List Json
elements nil = []
elements (cons v vs) = v ∷ elements vs

abbrev pub entries : Fields → Map
entries end = []
entries (field k v fs) = (k, v) ∷ entries fs

abbrev pub items_of : List Json → Items
items_of [] = nil
items_of (v ∷ vs) = cons v (items_of vs)

abbrev pub fields_of : Map → Fields
fields_of [] = end
fields_of ((k, v) ∷ m) = field k v (fields_of m)

-- A `[]any` and a `map[string]any` as an `any`.
abbrev pub list : List Json → Json
list vs = array (items_of vs)

abbrev pub dict : Map → Json
dict m = object (fields_of m)

abbrev or_null : Option Json → Json
or_null none = null
or_null (some v) = v

-- `m[key]`: nil where the key is missing.
unfoldable pub get : String → Map → Json
get key m = or_null (lookup key m)

abbrev is_some : Option Json → Bool
is_some none = false
is_some (some v) = true

-- `_, ok := m[key]`
unfoldable pub has_key : String → Map → Bool
has_key key m = is_some (lookup key m)

-- `value == nil`
abbrev pub is_null : Json → Bool
is_null null = true
is_null _ = false

-- `value.(map[string]any)`
abbrev pub as_map : Json → Option Map
as_map (object fs) = some (entries fs)
as_map _ = none

-- `value, _ := v.(map[string]any)`: an empty map where it is none, for a read of nil finds nothing.
abbrev pub map_of : Json → Map
map_of (object fs) = entries fs
map_of _ = []

-- `value.(string)`
abbrev pub as_string : Json → Option String
as_string (string s) = some s
as_string _ = none

-- `value.(bool)`
abbrev pub as_bool : Json → Option Bool
as_bool (bool b) = some b
as_bool _ = none

-- `value.([]any)`
abbrev pub as_list : Json → Option (List Json)
as_list (array vs) = some (elements vs)
as_list _ = none

-- What `json.Unmarshal` into a `map[string]any` yields: an error, a nil map for the text `null`, or
-- a map. `none` stands for bytes that are no JSON.
pub data Decoded : Type 0 where
  failed : Decoded
  nil_map : Decoded
  decoded : Map → Decoded

abbrev pub unmarshal_map : Option Json → Decoded
unmarshal_map (some (object fs)) = decoded (entries fs)
unmarshal_map (some null) = nil_map
unmarshal_map _ = failed

-- What a program reads of it that only reads.
abbrev pub readable : Decoded → Option Map
readable failed = none
readable nil_map = some []
readable (decoded m) = some m
