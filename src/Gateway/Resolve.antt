-- ===== src/Gateway/Resolve.antt =====
-- internal/gateway/handlers.go: from the models that a request names to the candidates that are tried,
-- `resolveRoute`, `pricingRuleForRoute`, `resolveCandidate` and `resolveCandidates`. The store's reads
-- have no other error than `ErrNotFound`, the only one that the in-memory store returns.
pub mod Preferences
pub mod Sound
use aiyolo.Base.{
  ℕ, zero, suc, ◌≡◌, refl, ◌⊎◌, inl, inr, String, Bool, true, false, not, ◌&&◌, ◌||◌, ◌===◌, List,
  [], ◌∷◌, is_empty, Option, none, some, if◌then◌else◌,
}
use aiyolo.Base.Int.{pos}
use aiyolo.Text.{trim_space}
use aiyolo.Domain.Routes.{Provider, ModelRoute, ProxyProfile, PricingRule}
use aiyolo.Domain.Protocols.{
  supports_protocol, provider_supported_protocols, route_allowed_protocols,
}
use aiyolo.Store.State.{MemoryStore, Result, ok, err, StoreError}
use aiyolo.Store.Routes.{
  enabled, get_model_route, get_provider, get_proxy_profile, get_pricing_rule,
}
use aiyolo.Gateway.Candidates.{
  RouteCandidate, ProviderPreferences, sort_candidates, filter_preferred,
}

-- Why `resolveRoute` finds no route.
pub data RouteError : Type 0 where
  store_error : StoreError → RouteError
  provider_disabled : String → RouteError

-- The `requestError` of `resolveCandidates`: `model_not_found` for the requested model, with its
-- cause, `protocol_mismatch`, and `invalid_provider_preferences`.
pub data RequestError : Type 0 where
  model_not_found : RouteError → RequestError
  protocol_mismatch invalid_provider_preferences : RequestError

-- The field `Status`.
abbrev pub error_status : RequestError → ℕ
error_status (model_not_found cause) = 404
error_status protocol_mismatch = 400
error_status invalid_provider_preferences = 400

-- The field `Code`.
abbrev pub error_code : RequestError → String
error_code (model_not_found cause) = "model_not_found"
error_code protocol_mismatch = "protocol_mismatch"
error_code invalid_provider_preferences = "invalid_provider_preferences"

-- The profile in the place of one that is missing.
abbrev direct_profile : Provider → ProxyProfile
direct_profile p = record {
  id = "direct";
  name = "direct";
  kind = "direct";
  endpoint = "";
  auth = "";
  region = "";
  timeout_seconds = p.timeout_seconds;
  stream_idle_timeout_seconds = pos 0;
  health_check_url = "";
  status = enabled;
  last_error = "";
  created_at = 0;
  updated_at = 0;
}

abbrev or_direct : Provider → Result ProxyProfile → ProxyProfile
or_direct p (ok profile) = profile
or_direct p (err e) = direct_profile p

abbrev or_text : String → String → String
or_text s t = if s === "" then t else s

-- What a request is answered with or what it fails with.
pub data Outcome (E A : Type 0) : Type 0 where
  success : A → Outcome E A
  failure : E → Outcome E A

pub Outcome-cases :
    {E A : Type 0} (o : Outcome E A) → ((a : A) × (o ≡ success a)) ⊎ ((e : E) × (o ≡ failure e))
Outcome-cases (success a) = inl (a, refl)
Outcome-cases (failure e) = inr (e, refl)

-- The part of `resolveRoute` behind the read of the provider.
pub route_through :
    ModelRoute → Provider → MemoryStore → Outcome RouteError (ModelRoute × Provider × ProxyProfile)
route_through route provider s =
    if not (provider.status === "") && not (provider.status === enabled)
    then failure (provider_disabled provider.id)
    else let profile_id =
        or_text (or_text route.proxy_profile_id provider.default_proxy_id) "direct" in
      success (route, provider, or_direct provider (get_proxy_profile profile_id s))

-- `resolveRoute`.
pub resolve_route : String → MemoryStore → Outcome RouteError (ModelRoute × Provider × ProxyProfile)
resolve_route model s = elim (get_model_route model s) [
  | err e ↦ failure (store_error e)
  | ok route ↦ elim (get_provider route.provider_id s) [
    | err e ↦ failure (store_error e)
    | ok provider ↦ route_through route provider s
  ]
]

-- The zero `PricingRule`.
abbrev pub no_pricing : PricingRule
no_pricing = record {
  id = "";
  model_alias = "";
  provider_id = "";
  currency = "";
  input_price = pos 0;
  output_price = pos 0;
  cache_read_price = pos 0;
  cache_write_price = pos 0;
  effective_from = 0;
  effective_to = none;
}

abbrev or_no_pricing : Result PricingRule → PricingRule
or_no_pricing (ok rule) = rule
or_no_pricing (err e) = no_pricing

-- `pricingRuleForRoute`, whose error is only ever `ErrNotFound`, which it answers itself.
pub pricing_rule_for_route : ModelRoute → MemoryStore → PricingRule
pricing_rule_for_route route s =
    if trim_space route.price_rule_id === ""
    then no_pricing
    else or_no_pricing (get_pricing_rule route.price_rule_id s)

-- `resolveCandidate`; the index is the one that `resolveCandidates` sets.
pub resolve_candidate : ℕ → String → MemoryStore → Outcome RouteError RouteCandidate
resolve_candidate index model s = elim (resolve_route model s) [
  | failure e ↦ failure e
  | success (route, provider, profile) ↦ success (record {
    model_index = index;
    route = route;
    provider = provider;
    profile = profile;
    pricing = pricing_rule_for_route route s;
  })
]

-- The test that both the provider and the route allow the protocol.
pub candidate_speaks : String → RouteCandidate → Bool
candidate_speaks protocol c =
    supports_protocol (provider_supported_protocols c.provider) protocol
    && supports_protocol (route_allowed_protocols c.route c.provider) protocol

-- The body of the loop for a fallback model, which is skipped where it does not resolve.
abbrev pub add_fallback :
    String → Outcome RouteError RouteCandidate → List RouteCandidate → List RouteCandidate
add_fallback protocol (failure e) rest = rest
add_fallback protocol (success c) rest = if candidate_speaks protocol c then c ∷ rest else rest

-- The loop over the fallback models.
pub fallback_candidates : String → ℕ → List String → MemoryStore → List RouteCandidate
fallback_candidates protocol index [] s = []
fallback_candidates protocol index (alias ∷ aliases) s =
    add_fallback protocol (resolve_candidate index alias s)
      (fallback_candidates protocol (suc index) aliases s)

-- The body of the loop for the requested model, which must resolve.
abbrev pub start_with :
    String
    → Outcome RouteError RouteCandidate
    → List RouteCandidate
    → Outcome RequestError (List RouteCandidate)
start_with protocol (failure e) rest = failure (model_not_found e)
start_with protocol (success c) rest =
    if not (candidate_speaks protocol c) then failure protocol_mismatch else success (c ∷ rest)

-- The loop over the requested model and the fallbacks.
pub named_candidates :
    String → String → List String → MemoryStore → Outcome RequestError (List RouteCandidate)
named_candidates protocol model fallbacks s =
    start_with protocol (resolve_candidate 0 model s) (fallback_candidates protocol 1 fallbacks s)

-- `if len(candidates) == 0 { return nil, … }`
abbrev pub some_candidates : List RouteCandidate → Outcome RequestError (List RouteCandidate)
some_candidates [] = failure invalid_provider_preferences
some_candidates (c ∷ cs) = success (c ∷ cs)

-- The part of `resolveCandidates` behind its loop and behind its filters. The test that the list of the loop is empty never
-- holds, for the requested model is in it.
abbrev pub sort_some :
    ProviderPreferences → List RouteCandidate → Outcome RequestError (List RouteCandidate)
sort_some prefs [] = failure invalid_provider_preferences
sort_some prefs (c ∷ cs) = some_candidates (sort_candidates (c ∷ cs) prefs)

abbrev pub choose_from :
    ProviderPreferences
    → List String
    → Outcome RequestError (List RouteCandidate)
    → Outcome RequestError (List RouteCandidate)
choose_from prefs required (failure e) = failure e
choose_from prefs required (success named) = sort_some prefs (filter_preferred named prefs required)

-- `resolveCandidates`.
pub resolve_candidates :
    String
    → String
    → List String
    → List String
    → ProviderPreferences
    → MemoryStore
    → Outcome RequestError (List RouteCandidate)
resolve_candidates protocol model fallbacks required prefs s =
    choose_from prefs required (named_candidates protocol model fallbacks s)
