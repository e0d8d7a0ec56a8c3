-- ===== src/Gateway/Forward/Usage.antt =====
-- internal/gateway/handlers.go `forwardCompatible`: the usage record that a request leaves.
use aiyolo.Base.{ℕ, ◌-◌, ◌/◌, String, Bool, true, false, ◌&&◌, ◌===◌, ltb, if◌then◌else◌}
use aiyolo.Base.Int.{is_zero_ℤ, pos, ◌+ℤ◌, wrap64}
use aiyolo.Domain.Time.{Time}
use aiyolo.Domain.Usage.{UsageRecord}
use aiyolo.Domain.ApiKeys.{Subject}
use aiyolo.Store.Routes.{default_currency}
use aiyolo.Gateway.Candidates.{RouteCandidate}
use aiyolo.Gateway.Cost.{calculate_usage_cost, endpoint_bills_usage}
use aiyolo.Gateway.Forward.{Response}

-- What the request says and what the handler has found out, for its usage record.
pub record Served : Type 0 where
  pub request_id : String
  pub subject : Subject
  pub protocol : String
  pub endpoint : String
  pub stream : Bool
  pub started : Time
  pub finished : Time

abbrev pub zero_usage : UsageRecord
zero_usage = record {
  request_id = "";
  user_id = "";
  api_key_id = "";
  provider_id = "";
  model_alias = "";
  upstream_model = "";
  protocol = "";
  endpoint = "";
  input_tokens = pos 0;
  output_tokens = pos 0;
  cache_read_tokens = pos 0;
  cache_creation_tokens = pos 0;
  total_tokens = pos 0;
  cost_micro_cents = pos 0;
  currency = "";
  estimated = false;
  stream = false;
  status_code = pos 0;
  latency_ms = pos 0;
  created_at = 0;
}

-- The assignments to a usage record that the two ends of the handler have in common.
abbrev pub label_usage : Served → RouteCandidate → ℕ → UsageRecord → UsageRecord
label_usage r c status u = record u {
  request_id = r.request_id;
  user_id = r.subject.user_id;
  api_key_id = r.subject.api_key_id;
  provider_id = c.provider.id;
  model_alias = c.route.public_name;
  upstream_model = c.route.upstream_model;
  protocol = r.protocol;
  endpoint = r.endpoint;
  stream = r.stream;
  status_code = pos status;
  latency_ms = pos ((r.finished - r.started) / 1000000);
  created_at = r.finished;
}

-- The usage of a request that no upstream answered.
unfoldable pub failed_usage : Served → RouteCandidate → UsageRecord
failed_usage r c = label_usage r c 502 (record zero_usage { currency = default_currency })

-- `if s == "" { s = t }`
abbrev pub or_text : String → String → String
or_text s t = if s === "" then t else s

-- The currency that the record is given where the response names none.
abbrev pub with_currency : RouteCandidate → UsageRecord → UsageRecord
with_currency c u = record u {
  currency = or_text (or_text u.currency c.pricing.currency) default_currency;
}

-- `if endpointBillsUsage(endpoint) && usage.CostMicroCents == 0 { … }`
abbrev pub with_cost : String → RouteCandidate → UsageRecord → UsageRecord
with_cost endpoint c u = record u {
  cost_micro_cents =
      if endpoint_bills_usage endpoint && is_zero_ℤ u.cost_micro_cents
      then calculate_usage_cost c.pricing u
      else u.cost_micro_cents;
}

abbrev pub with_total : UsageRecord → UsageRecord
with_total u = record u {
  total_tokens =
      if is_zero_ℤ u.total_tokens
      then wrap64
          (u.input_tokens +ℤ u.output_tokens +ℤ u.cache_creation_tokens +ℤ u.cache_read_tokens)
      else u.total_tokens;
}

abbrev pub with_estimated : ℕ → UsageRecord → UsageRecord
with_estimated status u = record u {
  estimated = if is_zero_ℤ u.total_tokens && ltb status 400 then true else u.estimated;
}

-- The usage of a request that an upstream answered, in the order of the assignments.
unfoldable pub answered_usage : Served → RouteCandidate → Response → UsageRecord
answered_usage r c response = with_estimated response.status (
    with_total
      (with_cost r.endpoint c (with_currency c (label_usage r c response.status response.usage))))
