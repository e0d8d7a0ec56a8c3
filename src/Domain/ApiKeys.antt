-- ===== src/Domain/ApiKeys.antt =====
-- internal/domain/types.go: API keys, the subject of a request, install tokens.
use aiyolo.Base.{String, List, Option}
use aiyolo.Base.Int.{ℤ}
use aiyolo.Domain.Time.{Time}

pub record ApiKey : Type 0 where
  pub id : String
  pub name : String
  pub key_hash : String
  pub prefix : String
  pub user_id : String
  pub organization_id : String
  pub project_id : String
  pub status : String
  pub allowed_protocols : List String
  pub allowed_models : List String
  pub rpm_limit : ℤ
  pub tpm_limit : ℤ
  pub concurrent_limit : ℤ
  pub daily_budget_cents : ℤ
  pub monthly_budget_cents : ℤ
  pub expires_at : Option Time
  pub created_at : Time
  pub last_used_at : Option Time

pub record Subject : Type 0 where
  pub api_key_id : String
  pub user_id : String
  pub organization_id : String
  pub project_id : String
  pub allowed_protocols : List String
  pub allowed_models : List String
  pub rpm_limit : ℤ
  pub tpm_limit : ℤ
  pub concurrent_limit : ℤ
  pub daily_budget_cents : ℤ
  pub monthly_budget_cents : ℤ

pub record CodexInstallToken : Type 0 where
  pub id : String
  pub token_hash : String
  pub created_by : String
  pub platform : String
  pub default_model : String
  pub allowed_models : List String
  pub expires_at : Time
  pub created_at : Time
  pub used_at : Option Time
  pub api_key_id : String
