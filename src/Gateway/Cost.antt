-- ===== src/Gateway/Cost.antt =====
-- internal/gateway/handlers.go: what a request costs, and what is left of a budget.
pub mod Rounding
use aiyolo.Base.{ℕ, ◌+◌, ◌≡◌, Bool, true, false, not, ◌||◌, ◌===◌, String, if◌then◌else◌}
use aiyolo.Base.Int.{ℤ, pos, ◌+ℤ◌, ◌-ℤ◌, ◌*ℤ◌, quot, wrap64, ltb_ℤ, leb_ℤ}
use aiyolo.Domain.Routes.{PricingRule}
use aiyolo.Domain.Usage.{UsageRecord}

-- `costForTokens`: the price of a million tokens for some tokens, rounded to the nearest unit.
unfoldable pub cost_for_tokens : ℤ → ℤ → ℤ
cost_for_tokens price tokens =
    if leb_ℤ price (pos 0) || leb_ℤ tokens (pos 0)
    then pos 0
    else quot (wrap64 (wrap64 (price *ℤ tokens) +ℤ pos 500000)) 1000000

-- `calculateUsageCost`.
unfoldable pub calculate_usage_cost : PricingRule → UsageRecord → ℤ
calculate_usage_cost rule u = wrap64 (
    cost_for_tokens rule.input_price u.input_tokens
    +ℤ cost_for_tokens rule.output_price u.output_tokens
    +ℤ cost_for_tokens rule.cache_read_price u.cache_read_tokens
    +ℤ cost_for_tokens rule.cache_write_price u.cache_creation_tokens)

-- `endpointBillsUsage`.
unfoldable pub endpoint_bills_usage : String → Bool
endpoint_bills_usage endpoint = not (endpoint === "/v1/messages/count_tokens")

-- `remainingBudget`.
unfoldable pub remaining_budget : ℤ → ℤ → ℤ
remaining_budget limit_cents cost_micro_cents =
    if leb_ℤ limit_cents (pos 0)
    then pos 0
    else let remaining = wrap64 (limit_cents -ℤ quot cost_micro_cents 1000000) in
      if ltb_ℤ remaining (pos 0) then pos 0 else remaining
