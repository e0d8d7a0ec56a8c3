-- ===== src/Gateway/Forward/Charged.antt =====
-- What a request is charged: the usage records of `forwardCompatible`.
use aiyolo.Base.{◌≡◌, ◌≢◌, String, ◌===◌, eq_iff, arith, if◌then◌else◌, inl, inr, Bool-cases}
use aiyolo.Base.Int.{pos}
use aiyolo.Store.Quota.{actual_usage_tokens}
use aiyolo.Gateway.Candidates.{RouteCandidate}
use aiyolo.Gateway.Cost.{calculate_usage_cost, endpoint_bills_usage}
use aiyolo.Store.Routes.{default_currency}
use aiyolo.Gateway.Forward.{Response}
use aiyolo.Gateway.Forward.Usage.{Served, or_text, answered_usage}

or_text_ne : (s t : String) → t ≢ "" → or_text s t ≢ ""
or_text_ne s t h = elim (Bool-cases (s === "")) [
  | inl blank ↦ rw blank h
  | inr named ↦ rw named (λ e. absurd (ground (arith, eq_iff s "")))
]

-- Completing the record of an answered request changes neither the tokens that its quota is settled
-- with nor a cost that the response names; without one, the cost is that of the candidate's prices,
-- and nothing where the endpoint only counts tokens. The record always names a currency.
pub answered_usage_lem :
    (r : Served) (c : RouteCandidate) (response : Response)
    → let u = answered_usage r c response in
      (actual_usage_tokens u ≡ actual_usage_tokens response.usage)
      × (u.currency ≢ "")
      × (response.usage.cost_micro_cents ≢ pos 0
          → u.cost_micro_cents ≡ response.usage.cost_micro_cents)
      × (response.usage.cost_micro_cents ≡ pos 0
          → u.cost_micro_cents ≡ (
              if r.endpoint === "/v1/messages/count_tokens"
              then pos 0
              else calculate_usage_cost c.pricing response.usage))
unfolding answered_usage actual_usage_tokens endpoint_bills_usage calculate_usage_cost
answered_usage_lem r c response = (
  ground arith,
  or_text_ne (or_text response.usage.currency c.pricing.currency) default_currency
      (λ e. absurd (ground (arith, eq_iff default_currency ""))),
  ground arith,
  ground arith,
)
