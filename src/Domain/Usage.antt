-- ===== src/Domain/Usage.antt =====
-- internal/domain/types.go: the usage ledger and its summaries.
use aiyolo.Base.{String, Bool}
use aiyolo.Base.Int.{ℤ}
use aiyolo.Domain.Time.{Time}

pub record UsageRecord : Type 0 where
  pub request_id : String
  pub user_id : String
  pub api_key_id : String
  pub provider_id : String
  pub model_alias : String
  pub upstream_model : String
  pub protocol : String
  pub endpoint : String
  pub input_tokens : ℤ
  pub output_tokens : ℤ
  pub cache_read_tokens : ℤ
  pub cache_creation_tokens : ℤ
  pub total_tokens : ℤ
  pub cost_micro_cents : ℤ
  pub currency : String
  pub estimated : Bool
  pub stream : Bool
  pub status_code : ℤ
  pub latency_ms : ℤ
  pub created_at : Time

pub record UsageTotals : Type 0 where
  pub requests : ℤ
  pub total_tokens : ℤ
  pub cost_micro_cents : ℤ

pub record ApiKeyUsageSummary : Type 0 where
  pub all_time : UsageTotals
  pub daily : UsageTotals
  pub weekly : UsageTotals
  pub monthly : UsageTotals
