-- ===== src/Gateway/Responses/Calls.antt =====
-- internal/gateway/responses_compat.go: the tool calls that a stream assembles from deltas. The keys of
-- the map are the indexes in the deltas.
pub mod Sorted
use aiyolo.Base.{
  ℕ, zero, suc, ◌+◌, ◌≡◌, ◌↔◌, String, Bool, true, false, ◌===◌, List, [], ◌∷◌, ◌++◌, Option, none,
  some, length, arith, ◌==◌, ltb, if◌then◌else◌,
}
use aiyolo.Base.Int.{ℤ, pos, negsuc}
use aiyolo.Text.Join.{concat}
use aiyolo.Dict.{Key, Dict, lookup, insert}
use aiyolo.Json.{string, Map, get, map_of}
use aiyolo.Json.Texts.{first_text, int_number}

-- `chatToolCallState`.
pub record ToolCallState : Type 0 where
  pub call_id : String
  pub name : String
  pub arguments : String

abbrev pub eq_ℤ : ℤ → ℤ → Bool
eq_ℤ (pos a) (pos b) = a == b
eq_ℤ (negsuc a) (negsuc b) = a == b
eq_ℤ _ _ = false

pub eq_ℤ_iff : (a b : ℤ) → (eq_ℤ a b ≡ true) ↔ (a ≡ b)
eq_ℤ_iff (pos a) (pos b) = ground arith
eq_ℤ_iff (pos a) (negsuc b) = ground arith
eq_ℤ_iff (negsuc a) (pos b) = ground arith
eq_ℤ_iff (negsuc a) (negsuc b) = ground arith

instance abbrev pub int_key : Key ℤ
int_key = record { beq = eq_ℤ; beq_iff = eq_ℤ_iff }

abbrev pub Calls : Type 0
Calls = Dict ℤ ToolCallState

-- The call that a delta is added to: the one with its index, or a new one.
unfoldable pub call_for : String → Map → Option ToolCallState → ToolCallState
call_for new_call call (some known) = known
call_for new_call call none = record {
  call_id = first_text (get "id" call ∷ string new_call ∷ []);
  name = "";
  arguments = "";
}

-- The identifier, the name and the arguments that a delta brings.
unfoldable pub add_delta : Map → ToolCallState → ToolCallState
add_delta call item =
    let function = map_of (get "function" call) in
    let id = first_text (get "id" call ∷ []) in
    let name = first_text (get "name" function ∷ []) in
    record {
      call_id = if id === "" then item.call_id else id;
      name = if name === "" then item.name else name;
      arguments = concat (item.arguments ∷ first_text (get "arguments" function ∷ []) ∷ []);
    }

abbrev drawn_for : Option ToolCallState → ℕ
drawn_for none = 1
drawn_for (some known) = 0

-- `consumeChatToolCallDelta`: the calls behind it, and how many identifiers it draws.
unfoldable pub consume_call : String → Map → Calls → Calls × ℕ
consume_call new_call call calls =
    let index = int_number (get "index" call) in
    (
      insert index (add_delta call (call_for new_call call (lookup index calls))) calls,
      drawn_for (lookup index calls),
    )

abbrev found : Option ToolCallState → List ToolCallState
found none = []
found (some item) = item ∷ []

-- The calls at some indexes upwards from one.
unfoldable pub calls_from : ℕ → ℕ → Calls → List ToolCallState
calls_from index zero calls = []
calls_from index (suc count) calls =
    found (lookup (pos index) calls) ++ calls_from (index + 1) count calls

-- Whether the loop over the small indexes reaches an index.
abbrev pub is_reached : ℕ → ℤ → Bool
is_reached bound (pos n) = ltb n bound
is_reached bound (negsuc n) = false

-- The calls at other indexes, in the order of the map.
unfoldable pub unreached : ℕ → Calls → List ToolCallState
unreached bound [] = []
unreached bound ((index, item) ∷ calls) =
    if is_reached bound index then unreached bound calls else item ∷ unreached bound calls

-- `sortedChatToolCallStates`.
unfoldable pub sorted_calls : Calls → List ToolCallState
sorted_calls calls =
    let bound = length calls + 8 in
    let result = calls_from 0 bound calls in
    if length result == length calls then result else result ++ unreached bound calls
