-- ===== src/Gateway/Body/Examples.antt =====
-- Bodies of a chat request, of a response and of a cached response of the Responses API.
use aiyolo.Base.{◌≡◌, refl, false, ◌===◌, [], ◌∷◌, Option, none, some, if◌then◌else◌}
use aiyolo.Base.Int.{ℤ, pos, ◌+ℤ◌, wrap64}
use aiyolo.Text.{trim_space, str_lt}
use aiyolo.Sort.{sort_stable}
use aiyolo.Dict.{lookup, string_key}
use aiyolo.Domain.Protocols.{protocol_anthropic}
use aiyolo.Domain.Protocols.Distinct.{distinct_by}
use aiyolo.Json.{Json, string, Map, get, as_map, list, dict, decoded}
use aiyolo.Json.Print.{int_literal}
use aiyolo.Json.Texts.{int_number}
use aiyolo.Gateway.Body.Usage.{cached_body_usage}
use aiyolo.Gateway.Body.Usage.Cached.{cached_body_usage_lem}
use aiyolo.Gateway.Body.Request.{
  good, CompatibleRequest, no_preferences, all_texts, parse_string_list, parse_provider_preferences,
  parameter_names, requested_parameter_names, parse_compatible_request,
}
use aiyolo.Gateway.Body.Request.Distinct.{IsNormal, parse_compatible_request-IsNormal}

abbrev chat_body : Map
chat_body =
    ("model", string " fast ")
    ∷ ("models", list (string "smart" ∷ string "fast" ∷ string " smart" ∷ []))
    ∷ ("temperature", int_literal 1)
    ∷ ("messages", list [])
    ∷ []

abbrev chat_request : CompatibleRequest
chat_request = record {
  model = "fast";
  fallback_models = "smart" ∷ [];
  stream = false;
  required_parameters = "temperature" ∷ [];
  provider = no_preferences;
}

abbrev no_price : Json → Option ℤ
no_price v = none

chat_request_read : parse_compatible_request no_price (decoded chat_body) ≡ good chat_request
unfolding parse_compatible_request get lookup trim_space parse_string_list all_texts distinct_by
    parse_provider_preferences requested_parameter_names parameter_names sort_stable str_lt
chat_request_read = refl

parse_compatible_request-IsNormal_example : IsNormal chat_request
parse_compatible_request-IsNormal_example =
    parse_compatible_request-IsNormal no_price (decoded chat_body) chat_request_read

-- The usage of a response of the Responses API.
abbrev responses_usage : Map
responses_usage =
    ("input_tokens", int_literal 7)
    ∷ ("output_tokens", int_literal 5)
    ∷ ("total_tokens", int_literal 12)
    ∷ []

abbrev responses_body : Map
responses_body = ("object", string "response") ∷ ("usage", dict responses_usage) ∷ []

responses_usage_found : as_map (get "usage" responses_body) ≡ some responses_usage
unfolding get lookup
responses_usage_found = refl

-- From the cache, the response is still recorded with its twelve tokens.
cached_body_usage_lem_example :
    ((cached_body_usage (decoded responses_body) "openai").input_tokens ≡ (
      if "openai" === protocol_anthropic
      then pos 0
      else int_number (get "input_tokens" responses_usage)))
    × ((cached_body_usage (decoded responses_body) "openai").output_tokens ≡ (
        if "openai" === protocol_anthropic
        then pos 0
        else int_number (get "output_tokens" responses_usage)))
    × ((cached_body_usage (decoded responses_body) "openai").total_tokens ≡ (
        if "openai" === protocol_anthropic
        then pos 0
        else wrap64 (
            int_number (get "input_tokens" responses_usage)
            +ℤ int_number (get "output_tokens" responses_usage))))
cached_body_usage_lem_example =
    cached_body_usage_lem responses_body responses_usage "openai" responses_usage_found
