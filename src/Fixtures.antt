-- ===== src/Fixtures.antt =====
-- Concrete values for the tests and examples of the other modules.
use aiyolo.Base.{◌*◌, true, false, [], ◌∷◌, none, some}
use aiyolo.Base.Int.{pos}
use aiyolo.Domain.Time.{Time}
use aiyolo.Domain.ApiKeys.{ApiKey, Subject, CodexInstallToken}
use aiyolo.Domain.Quota.{QuotaRequest}
use aiyolo.Domain.Routes.{Provider, ModelRoute, ProxyProfile, PricingRule}
use aiyolo.Domain.Usage.{UsageRecord}
use aiyolo.Store.State.{MemoryStore, new_memory_store}

-- Some minutes after the zero time.
abbrev pub noon : Time
noon = 43200000000000

abbrev pub alice_key : ApiKey
alice_key = record {
  id = "key_1";
  name = "laptop";
  key_hash = "h1";
  prefix = "ayl_1";
  user_id = "alice";
  organization_id = "";
  project_id = "";
  status = "active";
  allowed_protocols = "openai" ∷ [];
  allowed_models = "fast" ∷ "smart" ∷ [];
  rpm_limit = pos 10;
  tpm_limit = pos 1000;
  concurrent_limit = pos 2;
  daily_budget_cents = pos 0;
  monthly_budget_cents = pos 0;
  expires_at = some (2 * noon);
  created_at = noon;
  last_used_at = none;
}

abbrev pub alice : Subject
alice = record {
  api_key_id = "key_1";
  user_id = "alice";
  organization_id = "";
  project_id = "";
  allowed_protocols = "openai" ∷ [];
  allowed_models = "fast" ∷ "smart" ∷ [];
  rpm_limit = pos 10;
  tpm_limit = pos 1000;
  concurrent_limit = pos 2;
  daily_budget_cents = pos 0;
  monthly_budget_cents = pos 0;
}

abbrev pub token_1 : CodexInstallToken
token_1 = record {
  id = "token_1";
  token_hash = "t1";
  created_by = "admin";
  platform = "windows";
  default_model = "fast";
  allowed_models = "fast" ∷ [];
  expires_at = 2 * noon;
  created_at = noon;
  used_at = none;
  api_key_id = "";
}

abbrev pub provider_1 : Provider
provider_1 = record {
  id = "p1";
  name = "First";
  base_url = "https://one.example";
  protocol = "openai";
  supported_protocols = " OpenAI " ∷ "anthropic" ∷ [];
  master_key = "";
  default_proxy_id = "";
  priority = pos 1;
  weight = pos 1;
  status = "enabled";
  timeout_seconds = pos 0;
  stream_idle_timeout_seconds = pos 0;
  rate_limit_hint = "";
  last_health_check = none;
  last_error = "";
  created_at = noon;
  updated_at = noon;
}

abbrev pub route_1 : ModelRoute
route_1 = record {
  public_name = "fast";
  provider_id = "p1";
  upstream_model = "fast-2";
  protocol = "openai";
  allowed_protocols = "openai" ∷ [];
  proxy_profile_id = "";
  price_rule_id = "r1";
  enabled = true;
  priority = pos 1;
  weight = pos 1;
  context_tokens = pos 0;
  created_at = noon;
  updated_at = noon;
}

abbrev pub route_2 : ModelRoute
route_2 = record route_1 { public_name = "smart"; upstream_model = "smart-1"; price_rule_id = "" }

abbrev pub pricing_1 : PricingRule
pricing_1 = record {
  id = "r1";
  model_alias = "fast";
  provider_id = "p1";
  currency = "USD";
  input_price = pos 2000000;
  output_price = pos 8000000;
  cache_read_price = pos 0;
  cache_write_price = pos 0;
  effective_from = noon;
  effective_to = none;
}

abbrev pub profile_1 : ProxyProfile
profile_1 = record {
  id = "direct";
  name = "direct";
  kind = "direct";
  endpoint = "";
  auth = "";
  region = "";
  timeout_seconds = pos 0;
  stream_idle_timeout_seconds = pos 0;
  health_check_url = "";
  status = "enabled";
  last_error = "";
  created_at = noon;
  updated_at = noon;
}

abbrev pub usage_1 : UsageRecord
usage_1 = record {
  request_id = "req_1";
  user_id = "alice";
  api_key_id = "key_1";
  provider_id = "p1";
  model_alias = "fast";
  upstream_model = "fast-2";
  protocol = "openai";
  endpoint = "/v1/chat/completions";
  input_tokens = pos 30;
  output_tokens = pos 10;
  cache_read_tokens = pos 0;
  cache_creation_tokens = pos 0;
  total_tokens = pos 0;
  cost_micro_cents = pos 0;
  currency = "";
  estimated = false;
  stream = false;
  status_code = pos 200;
  latency_ms = pos 12;
  created_at = noon;
}

abbrev pub quota_1 : QuotaRequest
quota_1 = record {
  request_id = "req_1";
  api_key_id = "key_1";
  user_id = "alice";
  model_alias = "fast";
  rpm_limit = pos 10;
  tpm_limit = pos 1000;
  concurrent_limit = pos 2;
  daily_budget_cents = pos 0;
  monthly_budget_cents = pos 0;
  estimated_tokens = pos 100;
  estimated_cost_micro_cents = pos 0;
  now = noon;
}

-- A store with a key, a token, a provider, two routes and a price.
abbrev pub store_1 : MemoryStore
store_1 = record new_memory_store {
  api_keys = ("h1", alice_key) ∷ [];
  codex_tokens = ("t1", token_1) ∷ [];
  providers = ("p1", provider_1) ∷ [];
  routes = ("fast", route_1) ∷ ("smart", route_2) ∷ [];
  pricing_rules = ("r1", pricing_1) ∷ [];
  usage = usage_1 ∷ [];
}
