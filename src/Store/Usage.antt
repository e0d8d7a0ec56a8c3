-- ===== src/Store/Usage.antt =====
-- internal/storage/memory.go: the usage ledger, its newest records and its totals.
pub mod Totals
use aiyolo.Base.{
  ℕ, zero, suc, ◌-◌, ◌*◌, String, Bool, true, false, not, ◌===◌, leb, ltb, List, [], ◌∷◌, ◌++◌,
  length, take, Option, none, some, if◌then◌else◌,
}
use aiyolo.Base.Int.{ℤ, pos, ◌+ℤ◌, wrap64, leb_ℤ, ltb_ℤ, pos_part}
use aiyolo.Domain.Time.{Time, or_now, before, hour}
use aiyolo.Domain.Usage.{UsageRecord, UsageTotals, ApiKeyUsageSummary}
use aiyolo.Store.State.{MemoryStore, Result, ok, err, not_found, or_not_found}

-- `InsertUsage`.
unfoldable pub insert_usage : Time → UsageRecord → MemoryStore → MemoryStore
insert_usage clock u s = record s {
  usage = s.usage ++ record u { created_at = or_now clock u.created_at } ∷ [];
}

-- `values` from the last to the first.
unfoldable pub reverse : List UsageRecord → List UsageRecord
reverse [] = []
reverse (u ∷ us) = reverse us ++ u ∷ []

-- `recentUsage`.
unfoldable pub recent_usage : List UsageRecord → ℤ → List UsageRecord
unfolding reverse
recent_usage us limit =
    let count =
      if leb_ℤ limit (pos 0)
      then length us
      else if ltb_ℤ (pos (length us)) limit
      then length us
      else pos_part limit in
    take count (reverse us)

-- `ListUsage`.
unfoldable pub list_usage : ℤ → MemoryStore → List UsageRecord
list_usage limit s = recent_usage s.usage limit

-- The loop of `GetUsageByRequestID`, over the records from the last to the first.
pub first_with_request_id : String → List UsageRecord → Option UsageRecord
first_with_request_id id [] = none
first_with_request_id id (u ∷ us) =
    if u.request_id === id then some u else first_with_request_id id us

-- `GetUsageByRequestID`.
unfoldable pub get_usage_by_request_id : String → MemoryStore → Result UsageRecord
unfolding first_with_request_id reverse
get_usage_by_request_id id s = or_not_found (first_with_request_id id (reverse s.usage))

abbrev pub zero_totals : UsageTotals
zero_totals = record { requests = pos 0; total_tokens = pos 0; cost_micro_cents = pos 0 }

-- `addUsageTotals`.
unfoldable pub add_usage_totals : UsageTotals → UsageRecord → UsageTotals
add_usage_totals t u = record {
  requests = wrap64 (t.requests +ℤ pos 1);
  total_tokens = wrap64 (t.total_tokens +ℤ u.total_tokens);
  cost_micro_cents = wrap64 (t.cost_micro_cents +ℤ u.cost_micro_cents);
}

abbrev pub zero_summary : ApiKeyUsageSummary
zero_summary = record {
  all_time = zero_totals;
  daily = zero_totals;
  weekly = zero_totals;
  monthly = zero_totals;
}

-- `if !createdAt.Before(start) { addUsageTotals(&totals, usage) }`
abbrev pub add_since : Time → UsageTotals → UsageRecord → UsageTotals
add_since start t u = if not (before u.created_at start) then add_usage_totals t u else t

-- The body of the loop of `SummarizeAPIKeyUsage`.
pub summarize_one : Time → String → ApiKeyUsageSummary → UsageRecord → ApiKeyUsageSummary
summarize_one now api_key_id sum u = if not (u.api_key_id === api_key_id) then sum else record {
  all_time = add_usage_totals sum.all_time u;
  daily = add_since (now - 24 * hour) sum.daily u;
  weekly = add_since (now - 7 * (24 * hour)) sum.weekly u;
  monthly = add_since (now - 30 * (24 * hour)) sum.monthly u;
}

pub summarize_from : Time → String → ApiKeyUsageSummary → List UsageRecord → ApiKeyUsageSummary
summarize_from now api_key_id sum [] = sum
summarize_from now api_key_id sum (u ∷ us) =
    summarize_from now api_key_id (summarize_one now api_key_id sum u) us

-- `SummarizeAPIKeyUsage`. The clock is at least thirty days past the year 1, so the starts of the
-- periods do not stop at 0.
unfoldable pub summarize_api_key_usage : Time → String → MemoryStore → ApiKeyUsageSummary
unfolding summarize_from summarize_one
summarize_api_key_usage clock api_key_id s = summarize_from clock api_key_id zero_summary s.usage
