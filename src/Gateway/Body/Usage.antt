-- ===== src/Gateway/Body/Usage.antt =====
-- internal/gateway/handlers.go: the usage that is read off response bodies and off the lines of
-- streams, and the counts that a cached body is given. A body is taken as json.Unmarshal decodes it.
pub mod Cached
use aiyolo.Base.{
  ℕ, ◌/◌, String, Bool, true, false, not, ◌&&◌, ◌||◌, ◌===◌, List, [], ◌∷◌, Option, none, some, ltb,
  if◌then◌else◌,
}
use aiyolo.Base.Int.{is_zero_ℤ, ℤ, pos, ◌+ℤ◌, wrap64, ltb_ℤ}
use aiyolo.Text.{trim_space, has_prefix}
use aiyolo.Text.Join.{trim_prefix}
use aiyolo.Dict.{insert, string_key}
use aiyolo.Domain.Usage.{UsageRecord}
use aiyolo.Domain.Protocols.{protocol_anthropic}
use aiyolo.Store.Routes.{default_currency}
use aiyolo.Gateway.Forward.Usage.{zero_usage}
use aiyolo.Json.{Json, Map, get, is_null, as_map, map_of, dict, Decoded, readable, unmarshal_map}
use aiyolo.Json.Print.{int_literal}
use aiyolo.Json.Texts.{int_number}

abbrev count_of : String → Map → ℤ
count_of key m = int_number (get key m)

-- `if n == 0 { n = other }`
abbrev pub or_number : ℤ → ℤ → ℤ
or_number n other = if is_zero_ℤ n then other else n

-- The usage of an object in the format of Anthropic, and of OpenAI.
unfoldable pub anthropic_usage : Map → UsageRecord
anthropic_usage u = record zero_usage {
  currency = default_currency;
  input_tokens = count_of "input_tokens" u;
  output_tokens = count_of "output_tokens" u;
  cache_creation_tokens = count_of "cache_creation_input_tokens" u;
  cache_read_tokens = count_of "cache_read_input_tokens" u;
  total_tokens = wrap64 (
      count_of "input_tokens" u
      +ℤ count_of "output_tokens" u
      +ℤ count_of "cache_creation_input_tokens" u
      +ℤ count_of "cache_read_input_tokens" u);
}

unfoldable pub openai_usage : Map → UsageRecord
openai_usage u =
    let input = or_number (count_of "prompt_tokens" u) (count_of "input_tokens" u) in
    let output = or_number (count_of "completion_tokens" u) (count_of "output_tokens" u) in
    record zero_usage {
      currency = default_currency;
      input_tokens = input;
      output_tokens = output;
      total_tokens = or_number (count_of "total_tokens" u) (wrap64 (input +ℤ output));
    }

-- `usagePayload`: the usage of the payload, or for Anthropic that of the message in it.
unfoldable pub usage_object : String → Map → Option Map
usage_object protocol payload = elim (as_map (get "usage" payload)) [
  | some u ↦ some u
  | none ↦
      if protocol === protocol_anthropic
      then as_map (get "usage" (map_of (get "message" payload)))
      else none
]

-- The usage of a payload without a usage object: Anthropic's count of tokens, or none.
unfoldable pub bare_usage : String → Map → UsageRecord
bare_usage protocol payload =
    if protocol === protocol_anthropic && not (is_null (get "input_tokens" payload))
    then record zero_usage {
      currency = default_currency;
      input_tokens = count_of "input_tokens" payload;
      total_tokens = count_of "input_tokens" payload;
    }
    else zero_usage

unfoldable pub usage_of_payload : String → Map → UsageRecord
usage_of_payload protocol payload = elim (usage_object protocol payload) [
  | some u ↦ if protocol === protocol_anthropic then anthropic_usage u else openai_usage u
  | none ↦ bare_usage protocol payload
]

abbrev usage_of_readable : String → Option Map → UsageRecord
usage_of_readable protocol none = zero_usage
usage_of_readable protocol (some payload) = usage_of_payload protocol payload

-- `parseUsageFromJSON`.
unfoldable pub parse_usage_from_json : Decoded → String → UsageRecord
parse_usage_from_json body protocol = usage_of_readable protocol (readable body)

abbrev positive_or : ℤ → ℤ → ℤ
positive_or next old = if ltb_ℤ (pos 0) next then next else old

-- `mergeUsage`.
unfoldable pub merge_usage : UsageRecord → UsageRecord → UsageRecord
merge_usage target next = record target {
  input_tokens = positive_or next.input_tokens target.input_tokens;
  output_tokens = positive_or next.output_tokens target.output_tokens;
  cache_creation_tokens = positive_or next.cache_creation_tokens target.cache_creation_tokens;
  cache_read_tokens = positive_or next.cache_read_tokens target.cache_read_tokens;
  total_tokens = positive_or next.total_tokens target.total_tokens;
  currency = if not (next.currency === "") then next.currency else target.currency;
}

-- The text behind `data:` on a line of a stream.
abbrev pub line_data : String → Option String
line_data line =
    let trimmed = trim_space line in
    if has_prefix trimmed "data:" then some (trim_space (trim_prefix trimmed "data:")) else none

abbrev usage_of_data : (String → Option Json) → String → Option String → UsageRecord
usage_of_data parse protocol none = zero_usage
usage_of_data parse protocol (some text) =
    if text === "" || text === "[DONE]"
    then zero_usage
    else parse_usage_from_json (unmarshal_map (parse text)) protocol

-- `parse` is the JSON value of a text.
module _ (parse : String → Option Json) (protocol : String) where
  -- `parseUsageFromSSELine`.
  unfoldable pub parse_usage_from_sse_line : String → UsageRecord
  parse_usage_from_sse_line line = usage_of_data parse protocol (line_data line)

  -- The loop of `copySSE` over the lines of a stream, which are passed on as they are.
  unfoldable pub copy_sse : UsageRecord → List String → UsageRecord
  copy_sse usage [] = usage
  copy_sse usage (line ∷ lines) =
      copy_sse (merge_usage usage (parse_usage_from_sse_line line)) lines

-- The counts that `zeroUsageInCachedResponse` sets to 0.
unfoldable pub zero_counts : List String → Map → Map
zero_counts [] u = u
zero_counts (key ∷ keys) u = zero_counts keys (insert key (int_literal 0) u)

abbrev pub anthropic_counts : List String
anthropic_counts =
    "input_tokens" ∷ "output_tokens" ∷ "cache_creation_input_tokens" ∷ "cache_read_input_tokens"
    ∷ []

abbrev pub openai_counts : List String
openai_counts = "prompt_tokens" ∷ "completion_tokens" ∷ "total_tokens" ∷ []

abbrev zero_details : Option Map → Map → Map
zero_details none u = u
zero_details (some details) u =
    insert "prompt_tokens_details"
      (dict (zero_counts ("cached_tokens" ∷ "cache_write_tokens" ∷ []) details)) u

unfoldable pub zeroed_usage : String → Map → Map
zeroed_usage protocol u =
    if protocol === protocol_anthropic
    then zero_counts anthropic_counts u
    else zero_details (as_map (get "prompt_tokens_details" u)) (zero_counts openai_counts u)

abbrev zero_usage_in : String → Map → Option Map → Option Map
zero_usage_in protocol payload none = none
zero_usage_in protocol payload (some u) =
    some (insert "usage" (dict (zeroed_usage protocol u)) payload)

abbrev zero_usage_of : String → Option Map → Option Map
zero_usage_of protocol none = none
zero_usage_of protocol (some payload) =
    zero_usage_in protocol payload (as_map (get "usage" payload))

-- `zeroUsageInCachedResponse`: the payload that is encoded, or nothing where the body is kept.
unfoldable pub zero_usage_in_cached_response : Decoded → String → Option Map
zero_usage_in_cached_response body protocol = zero_usage_of protocol (readable body)

abbrev written_body : Decoded → Option Map → Decoded
written_body body none = body
written_body body (some payload) = Decoded.decoded payload

-- The usage that `writeCachedResponse` returns: that of the body it writes.
unfoldable pub cached_body_usage : Decoded → String → UsageRecord
cached_body_usage body protocol =
    record (parse_usage_from_json (written_body body (zero_usage_in_cached_response body protocol))
      protocol) { cost_micro_cents = pos 0 }

abbrev output_limit : Option Map → ℤ
output_limit none = pos 0
output_limit (some payload) =
    or_number (count_of "max_tokens" payload) (count_of "max_completion_tokens" payload)

abbrev at_least_one : ℤ → ℤ
at_least_one n = if ltb_ℤ n (pos 1) then pos 1 else n

-- `estimateRequestUsage` and `estimateRequestTokens`, from the length of the body and what it decodes
-- to.
unfoldable pub estimate_request_usage : ℕ → Decoded → UsageRecord
estimate_request_usage length body =
    let input = at_least_one (pos (length / 4)) in
    let output = output_limit (readable body) in
    record zero_usage {
      currency = default_currency;
      input_tokens = input;
      output_tokens = output;
      total_tokens = at_least_one (wrap64 (input +ℤ output));
    }

unfoldable pub estimate_request_tokens : ℕ → Decoded → ℤ
estimate_request_tokens length body = (estimate_request_usage length body).total_tokens
