-- ===== src/Domain/Routes.antt =====
-- internal/domain/types.go: providers, model routes, proxy profiles, prices.
use aiyolo.Base.{String, List, Bool, Option}
use aiyolo.Base.Int.{ℤ}
use aiyolo.Domain.Time.{Time}

pub record Provider : Type 0 where
  pub id : String
  pub name : String
  pub base_url : String
  pub protocol : String
  pub supported_protocols : List String
  pub master_key : String
  pub default_proxy_id : String
  pub priority : ℤ
  pub weight : ℤ
  pub status : String
  pub timeout_seconds : ℤ
  pub stream_idle_timeout_seconds : ℤ
  pub rate_limit_hint : String
  pub last_health_check : Option Time
  pub last_error : String
  pub created_at : Time
  pub updated_at : Time

pub record ModelRoute : Type 0 where
  pub public_name : String
  pub provider_id : String
  pub upstream_model : String
  pub protocol : String
  pub allowed_protocols : List String
  pub proxy_profile_id : String
  pub price_rule_id : String
  pub enabled : Bool
  pub priority : ℤ
  pub weight : ℤ
  pub context_tokens : ℤ
  pub created_at : Time
  pub updated_at : Time

pub record ProxyProfile : Type 0 where
  pub id : String
  pub name : String
  pub kind : String
  pub endpoint : String
  pub auth : String
  pub region : String
  pub timeout_seconds : ℤ
  pub stream_idle_timeout_seconds : ℤ
  pub health_check_url : String
  pub status : String
  pub last_error : String
  pub created_at : Time
  pub updated_at : Time

pub record PricingRule : Type 0 where
  pub id : String
  pub model_alias : String
  pub provider_id : String
  pub currency : String
  pub input_price : ℤ
  pub output_price : ℤ
  pub cache_read_price : ℤ
  pub cache_write_price : ℤ
  pub effective_from : Time
  pub effective_to : Option Time
