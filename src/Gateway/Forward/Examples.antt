-- ===== src/Gateway/Forward/Examples.antt =====
-- One request that is retried on a second candidate.
use aiyolo.Base.{
  ℕ, ◌+◌, ◌≡◌, ◌≢◌, refl, true, false, ◌===◌, [], ◌∷◌, none, arith, eq_iff, if◌then◌else◌,
}
use aiyolo.Base.Int.{pos}
use aiyolo.Dict.{lookup, string_key}
use aiyolo.Gateway.Candidates.{RouteCandidate}
use aiyolo.Gateway.Cache.{CacheControl}
use aiyolo.Gateway.Forward.{Response, Exchange, answered, chat_failed, try_all, before_loop}
use aiyolo.Gateway.Forward.Handler.{forward_to, forward_compatible}
use aiyolo.Gateway.Forward.Request.{Gateway, Request, Moments}
use aiyolo.Gateway.Forward.Attempts.{Tried, try_all-attempts}
use aiyolo.Gateway.Forward.Ledger.{Accounted, forward_to-Accounted}
use aiyolo.Gateway.Forward.Replies.{Replied, forward_compatible-Replied}
use aiyolo.Base.{List}
use aiyolo.Json.{failed, decoded}
use aiyolo.Gateway.Forward.{Attempt, failed_attempt, last_attempt}
use aiyolo.Fixtures.{
  noon, alice, provider_1, route_1, route_2, profile_1, pricing_1, usage_1, store_1,
}

abbrev first_candidate : RouteCandidate
first_candidate = record {
  model_index = 0;
  route = route_1;
  provider = provider_1;
  profile = profile_1;
  pricing = pricing_1;
}

abbrev second_candidate : RouteCandidate
second_candidate = record first_candidate { model_index = 1; route = route_2 }

abbrev busy_response : Response
busy_response = record {
  status = 503;
  headers = [];
  body = "";
  whole = failed;
  usage = usage_1;
  delivered = true;
}

abbrev good_response : Response
good_response = record busy_response { status = 200; body = "{}"; whole = decoded [] }

-- The first candidate is overloaded, the second one answers.
abbrev exchange_1 : ℕ → RouteCandidate → Exchange
exchange_1 index c =
    if c.route.public_name === "fast"
    then answered busy_response (chat_failed "")
    else answered good_response (chat_failed "")

abbrev moments_1 : Moments
moments_1 = record {
  started = noon;
  authenticated = noon;
  loaded = noon;
  reserved = noon;
  stored = noon;
  finished = noon + 2000000;
  settled = noon + 3000000;
  touched = noon + 4000000;
}

abbrev request_1 : Request
request_1 = record {
  id = "req_9";
  credentials = record { authorization = "Bearer h1"; x_api_key = "" };
  protocol = "openai";
  endpoint = "/v1/chat/completions";
  model = "fast";
  fallback_models = "smart" ∷ [];
  required_parameters = [];
  preferences = record {
    order = [];
    only = [];
    ignore = [];
    sort = "";
    allow_fallbacks = true;
    has_allow_fallbacks = false;
    require_parameters = false;
    has_max_price = false;
    max_price = record { prompt = pos 0; completion = pos 0 };
  };
  stream = false;
  wants_metadata = true;
  cache_headers = record { cache = ""; cache_clear = ""; cache_ttl = "" };
  digest = "d1";
  estimated = usage_1;
}

abbrev control_off : CacheControl
control_off = record { enabled = false; clear = false; ttl_seconds = 0 }

abbrev gateway_1 : Gateway
gateway_1 = record { store = store_1; cache = [] }

named_9 : request_1.id ≢ ""
named_9 e = absurd (ground (arith, eq_iff request_1.id ""))

unused_9 : lookup request_1.id gateway_1.store.reservations ≡ none
unfolding lookup
unused_9 = refl

dated_9 : moments_1.finished ≢ 0
dated_9 e = absurd (omega (arith, e))

try_all-attempts_example : Tried (first_candidate ∷ second_candidate ∷ []) (
    try_all "/v1/chat/completions" exchange_1 1
      (first_candidate ∷ second_candidate ∷ [])
      (before_loop first_candidate))
try_all-attempts_example =
    try_all-attempts "/v1/chat/completions" exchange_1 first_candidate (second_candidate ∷ [])

forward_to-Accounted_example : Accounted alice request_1 moments_1 store_1 (
    forward_to exchange_1 alice request_1 moments_1 control_off gateway_1 first_candidate
      (second_candidate ∷ []))
forward_to-Accounted_example =
    forward_to-Accounted alice request_1 moments_1 exchange_1 control_off gateway_1 first_candidate
      (second_candidate ∷ []) named_9 unused_9 dated_9

forward_compatible-Replied_example :
    Replied request_1 store_1
      (forward_compatible (λ s. s) exchange_1 (λ e. usage_1) request_1 moments_1 gateway_1)
forward_compatible-Replied_example =
    forward_compatible-Replied (λ s. s) exchange_1 (λ e. usage_1) request_1 moments_1 gateway_1

abbrev attempts_1 : List Attempt
attempts_1 =
    failed_attempt 1 first_candidate 503 "upstream_5xx" ∷ last_attempt 2 second_candidate 200 ∷ []
