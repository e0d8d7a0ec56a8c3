-- ===== src/Gateway/Forward/Handler.antt =====
-- internal/gateway/handlers.go `forwardCompatible`, from the authentication to the last write. The
-- request's body is read and parsed before.
use aiyolo.Base.{ℕ, ◌-◌, ◌/◌, String, false, not, List, [], ◌∷◌, Option, none, some, if◌then◌else◌}
use aiyolo.Base.Int.{pos}
use aiyolo.Domain.ApiKeys.{Subject}
use aiyolo.Domain.Quota.{QuotaRequest, QuotaReservation}
use aiyolo.Domain.Usage.{UsageRecord}
use aiyolo.Auth.{Access, granted, denied, authenticate, authorize_additional_models}
use aiyolo.Store.State.{MemoryStore, Result, ok, err}
use aiyolo.Store.Quota.{reserve_quota}
use aiyolo.Store.Usage.{insert_usage}
use aiyolo.Store.Keys.{touch_api_key}
use aiyolo.Store.Routes.{default_currency}
use aiyolo.Gateway.Candidates.{RouteCandidate}
use aiyolo.Gateway.Resolve.{RequestError, Outcome, success, failure, resolve_candidates}
use aiyolo.Gateway.Cost.{calculate_usage_cost, endpoint_bills_usage}
use aiyolo.Gateway.Cache.{
  CacheEntry, Cache, CacheControl, parse_response_cache_control, load_response_cache,
  delete_response_cache,
}
use aiyolo.Gateway.Forward.{Exchange, try_all, before_loop}
use aiyolo.Gateway.Forward.Usage.{or_text}
use aiyolo.Gateway.Forward.Request.{
  Gateway, Request, Moments, Reply, refused, model_not_allowed, invalid_cache_ttl, cached,
  unresolved, over_quota,
}
use aiyolo.Gateway.Forward.Finish.{key_of, finish}

-- The request that the quota is reserved with.
abbrev pub quota_request : Subject → Request → Moments → RouteCandidate → QuotaRequest
quota_request subject request at primary = record {
  request_id = request.id;
  api_key_id = subject.api_key_id;
  user_id = subject.user_id;
  model_alias = request.model;
  rpm_limit = subject.rpm_limit;
  tpm_limit = subject.tpm_limit;
  concurrent_limit = subject.concurrent_limit;
  daily_budget_cents = subject.daily_budget_cents;
  monthly_budget_cents = subject.monthly_budget_cents;
  estimated_tokens = request.estimated.total_tokens;
  estimated_cost_micro_cents =
      if endpoint_bills_usage request.endpoint
      then calculate_usage_cost primary.pricing request.estimated
      else pos 0;
  now = at.reserved;
}

-- The handler behind `ReserveQuota`.
abbrev pub forward_reserved :
    (ℕ → RouteCandidate → Exchange)
    → Subject
    → Request
    → Moments
    → CacheControl
    → Gateway
    → RouteCandidate
    → List RouteCandidate
    → Result (QuotaReservation × MemoryStore)
    → Reply × Gateway
forward_reserved exchange subject request at control g primary others (err e) = (over_quota e, g)
forward_reserved exchange subject request at control g primary others (ok (reservation, store)) =
    finish subject request at control reservation (record g { store = store })
      (try_all request.endpoint exchange 1 (primary ∷ others) (before_loop primary))

-- The handler from `ReserveQuota` on, for the first of the candidates and the others.
unfoldable pub forward_to :
    (ℕ → RouteCandidate → Exchange)
    → Subject
    → Request
    → Moments
    → CacheControl
    → Gateway
    → RouteCandidate
    → List RouteCandidate
    → Reply × Gateway
forward_to exchange subject request at control g primary others =
    forward_reserved exchange subject request at control g primary others
      (reserve_quota at.reserved (quota_request subject request at primary) g.store)

-- The handler from `resolveCandidates` on. A list without a candidate does not occur.
unfoldable pub forward_resolved :
    (ℕ → RouteCandidate → Exchange)
    → Subject
    → Request
    → Moments
    → CacheControl
    → Gateway
    → Outcome RequestError (List RouteCandidate)
    → Option (Reply × Gateway)
forward_resolved exchange subject request at control g (failure e) = some (unresolved e, g)
forward_resolved exchange subject request at control g (success []) = none
forward_resolved exchange subject request at control g (success (primary ∷ others)) =
    some (forward_to exchange subject request at control g primary others)

-- The usage that a hit is recorded with, from the usage that reading the cached body yields.
unfoldable pub cached_usage : Subject → Request → Moments → CacheEntry → UsageRecord → UsageRecord
cached_usage subject request at entry u = record u {
  request_id = request.id;
  user_id = subject.user_id;
  api_key_id = subject.api_key_id;
  provider_id = entry.provider_id;
  model_alias = entry.model_alias;
  upstream_model = entry.upstream_model;
  protocol = request.protocol;
  endpoint = request.endpoint;
  stream = false;
  status_code = entry.status_code;
  latency_ms = pos ((at.finished - at.started) / 1000000);
  created_at = at.finished;
  cost_micro_cents = pos 0;
  currency = or_text (or_text u.currency entry.currency) default_currency;
}

-- The answer from the cache, and its records.
unfoldable pub answer_cached :
    (CacheEntry → UsageRecord)
    → Subject
    → Request
    → Moments
    → Gateway
    → CacheEntry
    → Reply × Gateway
answer_cached usage_of subject request at g entry = (
  cached entry,
  record g {
    store =
        touch_api_key at.touched subject.api_key_id (
          insert_usage at.settled (cached_usage subject request at entry (usage_of entry)) g.store);
  },
)

-- `if cacheControl.Clear { handler.deleteResponseCache(cacheKey) }`
unfoldable pub clear_cache : Subject → Request → CacheControl → Gateway → Gateway
clear_cache subject request control g =
    if control.clear
    then record g { cache = delete_response_cache (key_of subject request) g.cache }
    else g

-- The two arguments stand for code that is not modelled: what the network does with an attempt, and
-- the usage that reading a cached body yields, with its counts set to 0.
module _ (sha256 : String → String) (exchange : ℕ → RouteCandidate → Exchange)
    (usage_of : CacheEntry → UsageRecord) where
  -- The handler behind the cache, which reads the store as it is when the cache is not hit.
  unfoldable pub forward_uncached :
      Subject → Request → Moments → CacheControl → Gateway → Option (Reply × Gateway)
  forward_uncached subject request at control g =
      forward_resolved exchange subject request at control g (
        resolve_candidates request.protocol request.model request.fallback_models
          request.required_parameters request.preferences g.store)

  -- The handler behind `loadResponseCache`.
  unfoldable pub forward_loaded :
      Subject
      → Request
      → Moments
      → CacheControl
      → Gateway
      → Option CacheEntry × Cache
      → Option (Reply × Gateway)
  forward_loaded subject request at control g (some entry, cache) =
      some (answer_cached usage_of subject request at (record g { cache = cache }) entry)
  forward_loaded subject request at control g (none, cache) =
      forward_uncached subject request at control (record g { cache = cache })

  -- The handler from the cache on.
  unfoldable pub forward_through_cache :
      Subject → Request → Moments → CacheControl → Gateway → Option (Reply × Gateway)
  forward_through_cache subject request at control g =
      let cleared = clear_cache subject request control g in
      if not control.enabled
      then forward_uncached subject request at control cleared
      else forward_loaded subject request at control cleared
          (load_response_cache (key_of subject request) at.loaded cleared.cache)

  -- The handler behind `parseResponseCacheControl`.
  abbrev pub forward_controlled :
      Subject → Request → Moments → Gateway → Option CacheControl → Option (Reply × Gateway)
  forward_controlled subject request at g none = some (invalid_cache_ttl, g)
  forward_controlled subject request at g (some control) =
      forward_through_cache subject request at control g

  -- The handler behind `authenticate`.
  abbrev pub forward_access : Request → Moments → Gateway → Access → Option (Reply × Gateway)
  forward_access request at g (denied d) = some (refused d, g)
  forward_access request at g (granted subject) =
      if not (authorize_additional_models subject request.protocol request.fallback_models)
      then some (model_not_allowed, g)
      else forward_controlled subject request at g
          (parse_response_cache_control request.cache_headers request.stream)

  -- `forwardCompatible`; `none` would be a panic on a list without a candidate.
  unfoldable pub forward_compatible : Request → Moments → Gateway → Option (Reply × Gateway)
  forward_compatible request at g = forward_access request at g (
      authenticate sha256 at.authenticated request.credentials request.protocol request.model
        g.store)
