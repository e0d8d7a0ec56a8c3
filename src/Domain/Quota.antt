-- ===== src/Domain/Quota.antt =====
-- internal/domain/types.go: quota requests and reservations.
use aiyolo.Base.{String, Option}
use aiyolo.Base.Int.{ℤ}
use aiyolo.Domain.Time.{Time}

pub record QuotaRequest : Type 0 where
  pub request_id : String
  pub api_key_id : String
  pub user_id : String
  pub model_alias : String
  pub rpm_limit : ℤ
  pub tpm_limit : ℤ
  pub concurrent_limit : ℤ
  pub daily_budget_cents : ℤ
  pub monthly_budget_cents : ℤ
  pub estimated_tokens : ℤ
  pub estimated_cost_micro_cents : ℤ
  pub now : Time

pub record QuotaReservation : Type 0 where
  pub id : String
  pub request_id : String
  pub api_key_id : String
  pub user_id : String
  pub model_alias : String
  pub window_start : Time
  pub estimated_tokens : ℤ
  pub estimated_cost_micro_cents : ℤ
  pub actual_tokens : ℤ
  pub actual_cost_micro_cents : ℤ
  pub status : String
  pub created_at : Time
  pub settled_at : Option Time
