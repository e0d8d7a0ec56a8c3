-- ===== src/Gateway/Forward.antt =====
-- internal/gateway/handlers.go `forwardCompatible`: the loop over the candidates, and the usage record
-- that a request leaves. What the network, the JSON and the HTTP code does with a candidate is an
-- `Exchange`, which is given.
pub mod Attempts
pub mod Usage
pub mod Request
pub mod Finish
pub mod Handler
pub mod Ledger
pub mod Replies
pub mod Charged
pub mod Metadata
mod Examples
use aiyolo.Base.{
  ℕ, zero, suc, ◌+◌, ◌-◌, ◌/◌, String, Bool, true, false, not, ◌&&◌, ◌||◌, ◌===◌, leb, ltb, List,
  [], ◌∷◌, ◌++◌, is_empty, Option, none, some, if◌then◌else◌,
}
use aiyolo.Base.Int.{ℤ, pos, ◌+ℤ◌, wrap64, leb_ℤ, ltb_ℤ}
use aiyolo.Domain.Time.{Time}
use aiyolo.Json.{Decoded}
use aiyolo.Domain.Usage.{UsageRecord}
use aiyolo.Domain.ApiKeys.{Subject}
use aiyolo.Store.Routes.{default_currency}
use aiyolo.Gateway.Candidates.{RouteCandidate}
use aiyolo.Gateway.Cost.{calculate_usage_cost, endpoint_bills_usage}
use aiyolo.Gateway.Errors.{
  retryable_upstream_status, failure_class_from_status, should_fallback_responses_to_chat,
}

-- A response of an upstream: its status, its headers and its body, and the usage that reading it
-- yields, which is the zero record where the body cannot be read. `whole` is what the body decodes to that
-- `injectRouterMetadata` would be given, which is the converted one where a chat answers for the Responses
-- API; a body that is passed on as a stream, is not read, is empty or is no JSON object has `failed` there.
pub record Response : Type 0 where
  pub status : ℕ
  pub headers : List (String × List String)
  pub body : String
  pub whole : Decoded
  pub usage : UsageRecord
  pub delivered : Bool

-- What `forwardResponsesViaChatCompletions` returns.
pub data ChatFallback : Type 0 where
  chat_failed : String → ChatFallback
  chat_answered : Response → ChatFallback

-- How an attempt with one candidate goes: the call that fails, or the response, with what the chat
-- endpoint of the same candidate would return.
pub data Exchange : Type 0 where
  no_client : String → Exchange
  not_rewritten : Exchange
  not_built : Exchange
  no_answer : String → Exchange
  answered : Response → ChatFallback → Exchange

-- `upstreamResponseMode`.
pub data ResponseMode : Type 0 where
  direct chat_fallback : ResponseMode

-- `routerMetadataAttempt`. A status code of 0 stands for none.
pub record Attempt : Type 0 where
  pub index : ℕ
  pub provider : String
  pub model : String
  pub status : String
  pub status_code : ℕ
  pub failure_class : String

-- The variables of `forwardCompatible` that the loop assigns.
pub record Progress : Type 0 where
  pub selected : RouteCandidate
  pub response : Option Response
  pub mode : ResponseMode
  pub last_error : Option String
  pub attempts : List Attempt

-- Where the loop ends: behind it, or in one of its two `return` statements.
pub data LoopEnd : Type 0 where
  left : Progress → LoopEnd
  invalid_json build_upstream_failed : LoopEnd

abbrev pub failed_attempt : ℕ → RouteCandidate → ℕ → String → Attempt
failed_attempt index c status_code failure_class = record {
  index = index;
  provider = c.provider.id;
  model = c.route.upstream_model;
  status = "failed";
  status_code = status_code;
  failure_class = failure_class;
}

-- The attempt that the loop stops at.
abbrev pub last_attempt : ℕ → RouteCandidate → ℕ → Attempt
last_attempt index c status = record {
  index = index;
  provider = c.provider.id;
  model = c.route.upstream_model;
  status = if leb 400 status then "failed" else "success";
  status_code = status;
  failure_class = if leb 400 status then failure_class_from_status status else "";
}

abbrev pub add_attempt : Attempt → Progress → Progress
add_attempt a p = record p { attempts = p.attempts ++ a ∷ [] }

-- `lastErr = err; attempts = append(…)`, with no response.
abbrev pub give_up : ℕ → RouteCandidate → String → String → Progress → Progress
give_up index c error failure_class p =
    record (add_attempt (failed_attempt index c 0 failure_class) p) {
      last_error = some error;
      response = none;
    }

-- What the loop does after an attempt: `continue`, or leave with a progress. `continue` is only
-- reached where another candidate is left.
pub data Next : Type 0 where
  retry : Progress → Next
  stop : LoopEnd → Next

-- `if index < len(candidates)-1 { continue }; break`
abbrev pub retry_or_break : Bool → Progress → Next
retry_or_break more p = if more then retry p else stop (left p)

-- The loop's body from the test `retryableUpstreamStatus`, with the response in hand.
pub judge : Bool → ℕ → RouteCandidate → Response → ResponseMode → Progress → Next
judge more index c response mode p =
    if retryable_upstream_status response.status && more
    then retry (
        add_attempt
          (failed_attempt index c response.status (failure_class_from_status response.status))
          (record p { mode = mode; response = none }))
    else stop (
        left (
          add_attempt (last_attempt index c response.status)
            (record p { mode = mode; response = some response })))

pub judge_fallback : Bool → ℕ → RouteCandidate → ChatFallback → Progress → Next
judge_fallback more index c (chat_failed error) p =
    retry_or_break more (give_up index c error "responses_fallback_failed" p)
judge_fallback more index c (chat_answered response) p = judge more index c response chat_fallback p

-- The body of the loop for a candidate, where `more` says that another one is left and `index` counts
-- from 1.
pub try_candidate : String → Bool → ℕ → RouteCandidate → Exchange → Progress → Next
try_candidate endpoint more index c (no_client error) p =
    retry_or_break more (give_up index c error "network_error" p)
try_candidate endpoint more index c not_rewritten p = stop invalid_json
try_candidate endpoint more index c not_built p = stop build_upstream_failed
try_candidate endpoint more index c (no_answer error) p =
    retry_or_break more (give_up index c error "network_error" p)
try_candidate endpoint more index c (answered response fallback) p =
    if should_fallback_responses_to_chat endpoint response.status
    then judge_fallback more index c fallback p
    else judge more index c response direct p

-- `selectedCandidate = candidate; responseMode = upstreamResponseModeDirect`
abbrev pub begin_attempt : RouteCandidate → Progress → Progress
begin_attempt c p = record p { selected = c; mode = direct }

-- `continue` goes on with the rest of the loop.
abbrev pub go_on : Next → (Progress → LoopEnd) → LoopEnd
go_on (retry p) rest = rest p
go_on (stop e) rest = e

-- The loop over the candidates, from an index that counts from 1.
module _ (endpoint : String) (exchange : ℕ → RouteCandidate → Exchange) where
  pub try_all : ℕ → List RouteCandidate → Progress → LoopEnd
  try_all index [] p = left p
  try_all index (c ∷ cs) p =
      go_on
        (try_candidate endpoint (not (is_empty cs)) index c (exchange index c) (begin_attempt c p))
        (try_all (suc index) cs)

-- The variables before the loop, with `selectedCandidate` the first of the candidates.
abbrev pub before_loop : RouteCandidate → Progress
before_loop primary = record {
  selected = primary;
  response = none;
  mode = direct;
  last_error = none;
  attempts = [];
}
