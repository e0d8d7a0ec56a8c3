-- ===== src/Gateway/Reads.antt =====
-- internal/gateway/handlers.go: the handlers that only read, `listModels`, `keyInfo` and `generation`.
-- An answer is the data of its JSON. The texts of prices are formatted `float64`s, so a listing has
-- the prices themselves. `keyInfo` reads the clock twice in a row, here once.
pub mod Private
use aiyolo.Base.{
  ℕ, ◌/◌, String, ◌≡◌, Bool, true, false, not, ◌&&◌, ◌||◌, ◌===◌, List, [], ◌∷◌, map, Option, none,
  some, if◌then◌else◌,
}
use aiyolo.Base.Int.{is_zero_ℤ, ℤ, pos, leb_ℤ}
use aiyolo.Text.{trim_space}
use aiyolo.Domain.Time.{Time}
use aiyolo.Domain.ApiKeys.{ApiKey, Subject}
use aiyolo.Domain.Routes.{Provider, ModelRoute, PricingRule}
use aiyolo.Domain.Usage.{UsageRecord, UsageTotals, ApiKeyUsageSummary}
use aiyolo.Auth.{
  Headers, Denial, missing_api_key, invalid_api_key, Access, granted, denied, extract_api_key,
  api_key_active, hash_api_key, authenticate,
}
use aiyolo.Store.State.{MemoryStore, Result, ok, err}
use aiyolo.Store.Keys.{find_api_key_by_hash}
use aiyolo.Store.Routes.{list_model_routes, get_provider}
use aiyolo.Store.Usage.{get_usage_by_request_id, summarize_api_key_usage, zero_totals}
use aiyolo.Gateway.Candidates.{supported_parameters}
use aiyolo.Gateway.Cost.{remaining_budget}
use aiyolo.Gateway.Resolve.{pricing_rule_for_route}

-- `modelListPricing`.
pub record ModelListPricing : Type 0 where
  pub prompt : ℤ
  pub completion : ℤ
  pub input_cache_read : ℤ
  pub input_cache_write : ℤ

-- `modelListEntry`.
pub record ModelListEntry : Type 0 where
  pub id : String
  pub created : ℕ
  pub owned_by : String
  pub context_length : ℤ
  pub pricing : Option ModelListPricing
  pub supported_parameters : List String

-- `modelPricingFromRule`.
pub model_pricing_from_rule : PricingRule → Option ModelListPricing
model_pricing_from_rule rule =
    if is_zero_ℤ rule.input_price
      && is_zero_ℤ rule.output_price
      && is_zero_ℤ rule.cache_read_price
      && is_zero_ℤ rule.cache_write_price
    then none
    else some (record {
      prompt = rule.input_price;
      completion = rule.output_price;
      input_cache_read = rule.cache_read_price;
      input_cache_write = rule.cache_write_price;
    })

-- The zero `Provider`, in the place of one that is missing.
abbrev no_provider : Provider
no_provider = record {
  id = "";
  name = "";
  base_url = "";
  protocol = "";
  supported_protocols = [];
  master_key = "";
  default_proxy_id = "";
  priority = pos 0;
  weight = pos 0;
  status = "";
  timeout_seconds = pos 0;
  stream_idle_timeout_seconds = pos 0;
  rate_limit_hint = "";
  last_health_check = none;
  last_error = "";
  created_at = 0;
  updated_at = 0;
}

abbrev or_no_provider : Result Provider → Provider
or_no_provider (ok p) = p
or_no_provider (err e) = no_provider

-- The body of the loop of `listModels`. `Created` is in seconds.
pub model_list_entry : Time → MemoryStore → ModelRoute → ModelListEntry
model_list_entry now s route = record {
  id = route.public_name;
  created = now / 1000000000;
  owned_by = route.provider_id;
  context_length = route.context_tokens;
  pricing = model_pricing_from_rule (pricing_rule_for_route route s);
  supported_parameters =
      supported_parameters route (or_no_provider (get_provider route.provider_id s));
}

-- What `keyInfo` answers with.
pub record KeyInfo : Type 0 where
  pub id : String
  pub name : String
  pub status : String
  pub created_at : Time
  pub last_used_at : Option Time
  pub include_byok_in_limit : Bool
  pub byok_usage : UsageTotals
  pub usage : ApiKeyUsageSummary
  pub rpm : ℤ
  pub tpm : ℤ
  pub concurrent : ℤ
  pub daily_budget_cents : ℤ
  pub monthly_budget_cents : ℤ
  pub daily_budget_remaining : ℤ
  pub monthly_budget_remaining : ℤ

-- The part of `keyInfo` behind its guards.
pub key_info_of : ApiKey → ApiKeyUsageSummary → KeyInfo
key_info_of key summary = record {
  id = key.id;
  name = key.name;
  status = key.status;
  created_at = key.created_at;
  last_used_at = key.last_used_at;
  include_byok_in_limit = false;
  byok_usage = zero_totals;
  usage = summary;
  rpm = key.rpm_limit;
  tpm = key.tpm_limit;
  concurrent = key.concurrent_limit;
  daily_budget_cents = key.daily_budget_cents;
  monthly_budget_cents = key.monthly_budget_cents;
  daily_budget_remaining = remaining_budget key.daily_budget_cents summary.daily.cost_micro_cents;
  monthly_budget_remaining =
      remaining_budget key.monthly_budget_cents summary.monthly.cost_micro_cents;
}

-- What a handler that reads answers.
pub data Answer (A : Type 0) : Type 0 where
  shown : A → Answer A
  denied_access : Denial → Answer A
  no_generation_id : Answer A
  generation_not_found : Answer A
  not_your_generation : Answer A

-- `usage.APIKeyID != "" && subject.APIKeyID != "" && usage.APIKeyID != subject.APIKeyID`
unfoldable pub belongs_to_other : Subject → UsageRecord → Bool
belongs_to_other subject u =
    not (u.api_key_id === "")
    && not (subject.api_key_id === "")
    && not (u.api_key_id === subject.api_key_id)

abbrev pub show_generation : Subject → Result UsageRecord → Answer UsageRecord
show_generation subject (err e) = generation_not_found
show_generation subject (ok u) = if belongs_to_other subject u then not_your_generation else shown u

abbrev pub find_generation : String → MemoryStore → Access → Answer UsageRecord
find_generation id s (denied d) = denied_access d
find_generation id s (granted subject) =
    if trim_space id === ""
    then no_generation_id
    else show_generation subject (get_usage_by_request_id (trim_space id) s)

abbrev pub list_entries : Time → MemoryStore → Access → Answer (List ModelListEntry)
list_entries now s (denied d) = denied_access d
list_entries now s (granted subject) = shown (map (model_list_entry now s) (list_model_routes s))

abbrev pub show_key : Time → MemoryStore → Result ApiKey → Answer KeyInfo
show_key now s (err e) = denied_access invalid_api_key
show_key now s (ok key) =
    if not (api_key_active key now)
    then denied_access invalid_api_key
    else shown (key_info_of key (summarize_api_key_usage now key.id s))

module _ (sha256 : String → String) where
  -- `listModels`.
  pub list_models : Time → Headers → MemoryStore → Answer (List ModelListEntry)
  list_models now headers s = list_entries now s (authenticate sha256 now headers "" "" s)

  abbrev pub look_up_key : Time → MemoryStore → Option String → Answer KeyInfo
  look_up_key now s none = denied_access missing_api_key
  look_up_key now s (some text) = show_key now s (find_api_key_by_hash (hash_api_key sha256 text) s)

  -- `keyInfo`.
  pub key_info : Time → Headers → MemoryStore → Answer KeyInfo
  key_info now headers s = look_up_key now s (extract_api_key headers)

  -- `generation`. It shows the record of the usage, field by field.
  unfoldable pub generation : Time → Headers → String → MemoryStore → Answer UsageRecord
  generation now headers id s = find_generation id s (authenticate sha256 now headers "" "" s)
