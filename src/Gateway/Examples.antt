-- ===== src/Gateway/Examples.antt =====
-- Costs, candidates and cached responses.
use mathlib.Core.List.{Perm}
use aiyolo.Base.{◌+◌, ◌*◌, ◌≤◌, ◌≡◌, ◌≢◌, refl, String, true, false, [], ◌∷◌, some, none, arith}
use aiyolo.Base.Int.{pos, ◌≤ℤ◌}
use aiyolo.Text.{trim_space, to_lower}
use aiyolo.Text.Numbers.{atoi}
use aiyolo.Dict.{lookup, string_key}
use aiyolo.Domain.Time.{second}
use aiyolo.Gateway.Cost.{cost_for_tokens}
use aiyolo.Gateway.Cost.Rounding.{cost_overflow}
use aiyolo.Gateway.Candidates.{
  RouteCandidate, ProviderPreferences, provider_order_from, sort_candidates,
}
use aiyolo.Gateway.Candidates.Chosen.{IsRestricted, sort_candidates_lem}
use aiyolo.Gateway.Candidates.Precedence.{InOrder}
use aiyolo.Gateway.Candidates.{in_set}
use aiyolo.Base.{filter}
use aiyolo.Gateway.Resolve.{resolve_candidates}
use aiyolo.Gateway.Resolve.Sound.{OnSuccess, Chosen, resolve_candidates-Chosen}
use aiyolo.Gateway.Cache.{
  CacheEntry, CacheControl, CacheHeaders, Cache, load_response_cache, parse_response_cache_control,
  enabled_header_value,
}
use aiyolo.Gateway.Cache.Fresh.{load-fresh}
use aiyolo.Domain.ApiKeys.{Subject}
use aiyolo.Auth.{
  Headers, granted, authenticate, extract_api_key, hash_api_key, api_key_active, allows,
  subject_from_api_key,
}
use aiyolo.Store.Keys.{find_api_key_by_hash}
use aiyolo.Store.Usage.{get_usage_by_request_id, reverse}
use aiyolo.Text.{has_prefix}
use aiyolo.Gateway.Reads.{generation, shown, belongs_to_other}
use aiyolo.Gateway.Reads.Private.{Own, generation-Own}
use aiyolo.Fixtures.{usage_1, noon, provider_1, route_1, route_2, profile_1, pricing_1, store_1}

cost_overflow_example : cost_for_tokens (pos 10000000000) (pos 1000000000) ≤ℤ pos 0
cost_overflow_example =
    cost_overflow 10000000000 1000000000 (omega arith) (omega arith) (omega arith) (omega arith)

abbrev candidate_1 : RouteCandidate
candidate_1 = record {
  model_index = 0;
  route = route_1;
  provider = provider_1;
  profile = profile_1;
  pricing = pricing_1;
}

abbrev candidate_2 : RouteCandidate
candidate_2 = record candidate_1 { model_index = 1; route = route_2 }

abbrev preferences_1 : ProviderPreferences
preferences_1 = record {
  order = "p2" ∷ "p1" ∷ [];
  only = " p1 " ∷ [];
  ignore = "p3" ∷ [];
  sort = "price";
  allow_fallbacks = true;
  has_allow_fallbacks = true;
  require_parameters = true;
  has_max_price = true;
  max_price = record { prompt = pos 3000000; completion = pos 0 };
}

sort_candidates_lem_example :
    (IsRestricted preferences_1
      → Perm
          (sort_candidates (candidate_2 ∷ candidate_1 ∷ []) preferences_1)
          (filter (λ c. in_set preferences_1.order c.provider.id) (candidate_2 ∷ candidate_1 ∷ [])))
    × ((IsRestricted preferences_1 → ⊥)
        → Perm
            (sort_candidates (candidate_2 ∷ candidate_1 ∷ []) preferences_1)
            (candidate_2 ∷ candidate_1 ∷ []))
    × InOrder
        (provider_order_from 0 preferences_1.order [])
        preferences_1.sort
        (sort_candidates (candidate_2 ∷ candidate_1 ∷ []) preferences_1)
sort_candidates_lem_example = sort_candidates_lem (candidate_2 ∷ candidate_1 ∷ []) preferences_1

resolve_candidates-Chosen_example :
    OnSuccess
      (Chosen store_1 "openai" preferences_1 ("top_p" ∷ []))
      (resolve_candidates "openai" "fast" ("smart" ∷ []) ("top_p" ∷ []) preferences_1 store_1)
resolve_candidates-Chosen_example =
    resolve_candidates-Chosen "openai" "fast" ("smart" ∷ []) ("top_p" ∷ []) preferences_1 store_1

abbrev entry_1 : CacheEntry
entry_1 = record {
  status_code = pos 200;
  headers = [];
  body = "{}";
  created_at = noon;
  ttl_seconds = 60;
  provider_id = "p1";
  model_alias = "fast";
  upstream_model = "fast-2";
  currency = "USD";
  protocol = "openai";
  endpoint = "/v1/chat/completions";
}

abbrev cache_key_1 : String
cache_key_1 = "k1"

abbrev cache_1 : Cache
cache_1 = ("k1", entry_1) ∷ []

load-fresh_example :
    ((entry : CacheEntry)
      → (load_response_cache cache_key_1 noon cache_1).0 ≡ some entry
      → (lookup cache_key_1 cache_1 ≡ some entry)
        × (noon ≤ entry.created_at + entry.ttl_seconds * second))
    × (cache_key_1 ≢ "k2"
        → lookup "k2" (load_response_cache cache_key_1 noon cache_1).1 ≡ lookup "k2" cache_1)
    × ((load_response_cache cache_key_1 noon cache_1).0 ≡ none
        → lookup cache_key_1 (load_response_cache cache_key_1 noon cache_1).1 ≡ none)
load-fresh_example = load-fresh cache_key_1 "k2" noon cache_1

abbrev cache_headers_1 : CacheHeaders
cache_headers_1 = record { cache = " Yes "; cache_clear = ""; cache_ttl = " 120 " }

abbrev control_1 : CacheControl
control_1 = record { enabled = true; clear = false; ttl_seconds = 120 }

parsed_1 : parse_response_cache_control cache_headers_1 false ≡ some control_1
unfolding parse_response_cache_control enabled_header_value trim_space to_lower atoi
parsed_1 = refl

abbrev digest_1 : String → String
digest_1 s = s

abbrev headers_1 : Headers
headers_1 = record { authorization = ""; x_api_key = " h1" }

shown_1 : generation digest_1 noon headers_1 " req_1 " store_1 ≡ shown usage_1
unfolding generation authenticate extract_api_key find_api_key_by_hash has_prefix to_lower
    trim_space lookup hash_api_key api_key_active allows subject_from_api_key
    get_usage_by_request_id reverse belongs_to_other
shown_1 = refl

generation-Own_example :
    (subject : Subject) × (authenticate digest_1 noon headers_1 "" "" store_1 ≡ granted subject)
    × Own store_1 " req_1 " usage_1 subject
generation-Own_example = generation-Own digest_1 noon headers_1 " req_1 " store_1 usage_1 shown_1
