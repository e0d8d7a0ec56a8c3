-- ===== src/Store/Routes.antt =====
-- internal/storage/memory.go: providers, model routes and pricing rules, and the reads of proxy
-- profiles. `UpsertProxyProfile` parses a URL with `net/url` and is not modelled.
pub mod Read
use aiyolo.Base.{
  String, Bool, true, false, not, ◌&&◌, ◌||◌, ◌===◌, List, [], ◌∷◌, is_empty, filter, Option, none,
  some, if◌then◌else◌,
}
use aiyolo.Text.{trim_space, str_lt}
use aiyolo.Dict.{Dict, lookup, insert, values, string_key}
use aiyolo.Sort.{sort_stable}
use aiyolo.Domain.Time.{Time, or_now, is_zero}
use aiyolo.Domain.Routes.{Provider, ModelRoute, ProxyProfile, PricingRule}
use aiyolo.Domain.Timeouts.{
  effective_provider_timeout_seconds, effective_provider_stream_idle_timeout_seconds,
}
use aiyolo.Domain.Protocols.{
  protocol_openai, normalize_protocol, normalize_protocols, provider_supported_protocols,
  provider_primary_protocol,
}
use aiyolo.Domain.Protocols.Distinct.{head_or}
use aiyolo.Store.State.{MemoryStore, Result, ok, err, not_found, or_not_found, ◌>>=◌, ◌>>◌, fail_if}

abbrev pub enabled : String
enabled = "enabled"

abbrev pub default_currency : String
default_currency = "CNY"

-- What `UpsertProvider` stores of a provider, in the order of its assignments.
pub stored_provider : Time → Provider → Provider
stored_provider clock provider =
    let listed = record provider { supported_protocols = provider_supported_protocols provider } in
    let named = record listed { protocol = provider_primary_protocol listed } in
    let timed = record named { timeout_seconds = effective_provider_timeout_seconds named } in
    record timed {
      stream_idle_timeout_seconds = effective_provider_stream_idle_timeout_seconds timed;
      created_at = or_now clock timed.created_at;
      updated_at = clock;
      status = if timed.status === "" then enabled else timed.status;
    }

-- `UpsertProvider`.
unfoldable pub upsert_provider : Time → Provider → MemoryStore → MemoryStore
upsert_provider clock provider s = record s {
  providers = insert provider.id (stored_provider clock provider) s.providers;
}

-- `ListProviders`.
unfoldable pub list_providers : MemoryStore → List Provider
list_providers s = sort_stable (λ p q. str_lt p.id q.id) (values s.providers)

-- `GetProvider`.
unfoldable pub get_provider : String → MemoryStore → Result Provider
get_provider id s = or_not_found (lookup id s.providers)

-- The protocols that `UpsertModelRoute` stores for a route, from the normal forms of its own.
pub allowed_or_default : List String → String → List String
allowed_or_default listed protocol =
    let named = if is_empty listed && not (protocol === "") then protocol ∷ [] else listed in
    if is_empty named then protocol_openai ∷ [] else named

abbrev pub protocol_or_first : String → List String → String
protocol_or_first protocol allowed = if protocol === "" then head_or "" allowed else protocol

-- What `UpsertModelRoute` stores of a route.
pub stored_route : Time → ModelRoute → ModelRoute
stored_route clock route =
    let protocol = normalize_protocol route.protocol in
    let allowed = allowed_or_default (normalize_protocols route.allowed_protocols) protocol in
    record route {
      allowed_protocols = allowed;
      protocol = protocol_or_first protocol allowed;
      created_at = or_now clock route.created_at;
      updated_at = clock;
    }

-- `UpsertModelRoute`.
unfoldable pub upsert_model_route : Time → ModelRoute → MemoryStore → MemoryStore
upsert_model_route clock route s = record s {
  routes = insert route.public_name (stored_route clock route) s.routes;
}

-- `ListModelRoutes`.
unfoldable pub list_model_routes : MemoryStore → List ModelRoute
list_model_routes s =
    sort_stable (λ p q. str_lt p.public_name q.public_name)
      (filter (λ route. route.enabled) (values s.routes))

-- `GetModelRoute`.
unfoldable pub get_model_route : String → MemoryStore → Result ModelRoute
get_model_route public_name s = do
  route ← or_not_found (lookup public_name s.routes)
  fail_if (not route.enabled) not_found
  ok route

-- `LookupModelRoute`.
unfoldable pub lookup_model_route : String → MemoryStore → Result ModelRoute
lookup_model_route public_name s = or_not_found (lookup public_name s.routes)

abbrev keep_effective_from : Option PricingRule → Time → Time
keep_effective_from none t = t
keep_effective_from (some existing) t = if is_zero t then existing.effective_from else t

-- `UpsertPricingRule`.
unfoldable pub upsert_pricing_rule : Time → PricingRule → MemoryStore → MemoryStore
upsert_pricing_rule clock rule s =
    let kept = keep_effective_from (lookup rule.id s.pricing_rules) rule.effective_from in
    let stored = record rule {
      effective_from = or_now clock kept;
      currency = if trim_space rule.currency === "" then default_currency else rule.currency;
    } in
    record s { pricing_rules = insert rule.id stored s.pricing_rules }

-- `ListPricingRules`.
unfoldable pub list_pricing_rules : MemoryStore → List PricingRule
list_pricing_rules s =
    sort_stable
      (λ p q.
        if not (p.model_alias === q.model_alias)
        then str_lt p.model_alias q.model_alias
        else str_lt p.id q.id)
      (values s.pricing_rules)

-- `GetPricingRule`.
unfoldable pub get_pricing_rule : String → MemoryStore → Result PricingRule
get_pricing_rule id s = or_not_found (lookup id s.pricing_rules)

-- `ListProxyProfiles`.
unfoldable pub list_proxy_profiles : MemoryStore → List ProxyProfile
list_proxy_profiles s = sort_stable (λ p q. str_lt p.id q.id) (values s.proxies)

-- `GetProxyProfile`.
unfoldable pub get_proxy_profile : String → MemoryStore → Result ProxyProfile
get_proxy_profile id s = or_not_found (lookup id s.proxies)
