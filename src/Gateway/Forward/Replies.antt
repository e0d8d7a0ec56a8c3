-- ===== src/Gateway/Forward/Replies.antt =====
-- When `forwardCompatible` replies, and what it leaves alone when it replies early.
use aiyolo.Base.{
  ℕ, ◌≡◌, refl, sym, subst, if_intro, ◌&&◌, String, Bool, true, false, not, List, [], ◌∷◌, is_empty,
  Option, none, some, arith, if◌then◌else◌,
}
use aiyolo.Domain.ApiKeys.{Subject}
use aiyolo.Domain.Usage.{UsageRecord}
use aiyolo.Domain.Quota.{QuotaReservation}
use aiyolo.Auth.{Access, granted, denied, authenticate, authorize_additional_models}
use aiyolo.Store.State.{MemoryStore, Result, ok, err}
use aiyolo.Store.Quota.{reserve_quota}
use aiyolo.Store.Usage.{insert_usage}
use aiyolo.Store.Keys.{touch_api_key}
use aiyolo.Gateway.Candidates.{RouteCandidate}
use aiyolo.Gateway.Resolve.{RequestError, Outcome, success, failure, resolve_candidates}
use aiyolo.Gateway.Resolve.Sound.{resolve_candidates-Chosen, OnSuccess, Chosen}
use aiyolo.Gateway.Cache.{CacheEntry, Cache, CacheControl}
use aiyolo.Gateway.Forward.{
  Response, Exchange, Progress, LoopEnd, left, invalid_json, build_upstream_failed, try_all,
  before_loop,
}
use aiyolo.Gateway.Forward.Handler.{
  quota_request, forward_reserved, forward_to, forward_resolved, answer_cached, clear_cache,
  forward_uncached, forward_loaded, forward_through_cache, forward_controlled, forward_access,
  forward_compatible,
}
use aiyolo.Gateway.Forward.Finish.{answer, finish, panics, HasNullBody, null_of_panics}
use aiyolo.Gateway.Body.Rewrite.{inject_router_metadata}
use aiyolo.Json.{null}
use aiyolo.Gateway.Forward.Request.{
  Gateway, Request, Moments, Reply, refused, model_not_allowed, invalid_cache_ttl, cached,
  unresolved, over_quota, bad_body, not_sent, bad_gateway, relayed, panicked,
}

-- What an early reply leaves of a store: all of it, or for a hit of the cache, all of the quota.
abbrev pub Untouched : Request → MemoryStore → Reply × Gateway → Type 0
Untouched request s (refused d, g) = g.store ≡ s
Untouched request s (model_not_allowed, g) = g.store ≡ s
Untouched request s (invalid_cache_ttl, g) = g.store ≡ s
Untouched request s (unresolved e, g) = g.store ≡ s
Untouched request s (over_quota e, g) = g.store ≡ s
Untouched request s (cached entry, g) =
    (g.store.reservations ≡ s.reservations) × (g.store.limits ≡ s.limits)
Untouched request s (bad_body, g) = Unit
Untouched request s (not_sent, g) = Unit
Untouched request s (bad_gateway p, g) = Unit
Untouched request s (relayed p response, g) = Unit
Untouched request s (panicked p, g) = (request.wants_metadata ≡ true) × HasNullBody p.response

abbrev pub Replied : Request → MemoryStore → Option (Reply × Gateway) → Type 0
Replied request s none = ⊥
Replied request s (some reply) = Untouched request s reply

module _ (exchange : ℕ → RouteCandidate → Exchange) (subject : Subject) (request : Request)
    (at : Moments) (control : CacheControl) where
  answer-Untouched :
      (s : MemoryStore) (r : QuotaReservation) (g : Gateway) (p : Progress) (o : Option Response)
      → p.response ≡ o
      → Untouched request s (answer subject request at control r g p o)
  answer-Untouched s r g p none same = tt
  answer-Untouched s r g p (some response) same =
      let injected = inject_router_metadata false response.whole null in
      if_intro (Untouched request s) (request.wants_metadata && panics injected)
        (λ null_sent. (
          ground (arith, null_sent),
          subst HasNullBody (sym same) (null_of_panics response.whole (ground (arith, null_sent))),
        ))
        λ _. tt

  finish-Untouched :
      (s : MemoryStore) (r : QuotaReservation) (g : Gateway) (e : LoopEnd)
      → Untouched request s (finish subject request at control r g e)
  unfolding finish
  finish-Untouched s r g invalid_json = tt
  finish-Untouched s r g build_upstream_failed = tt
  finish-Untouched s r g (left p) = answer-Untouched s r g p p.response refl

  forward_reserved-Untouched :
      (g : Gateway) (primary : RouteCandidate) (others : List RouteCandidate)
      (q : Result (QuotaReservation × MemoryStore))
      → Untouched request g.store
          (forward_reserved exchange subject request at control g primary others q)
  forward_reserved-Untouched g primary others (err e) = refl
  forward_reserved-Untouched g primary others (ok (r, s')) =
      finish-Untouched g.store r (record g { store = s' })
        (try_all request.endpoint exchange 1 (primary ∷ others) (before_loop primary))

  forward_resolved-Replied :
      (g : Gateway) (o : Outcome RequestError (List RouteCandidate))
      → OnSuccess (λ cs. is_empty cs ≡ false) o
      → Replied request g.store (forward_resolved exchange subject request at control g o)
  unfolding forward_resolved forward_to
  forward_resolved-Replied g (failure e) h = refl
  forward_resolved-Replied g (success []) h = absurd (ground (arith, h))
  forward_resolved-Replied g (success (primary ∷ others)) h =
      forward_reserved-Untouched g primary others
        (reserve_quota at.reserved (quota_request subject request at primary) g.store)

either-Replied :
    (request : Request) (s : MemoryStore) (b : Bool) (x y : Option (Reply × Gateway))
    → Replied request s x
    → Replied request s y
    → Replied request s (if b then x else y)
either-Replied request s true x y h k = h
either-Replied request s false x y h k = k

nonempty :
    (s : MemoryStore) (request : Request) (o : Outcome RequestError (List RouteCandidate))
    → OnSuccess (Chosen s request.protocol request.preferences request.required_parameters) o
    → OnSuccess (λ cs. is_empty cs ≡ false) o
nonempty s request (failure e) h = tt
nonempty s request (success cs) h = h.0

module _ (sha256 : String → String) (exchange : ℕ → RouteCandidate → Exchange)
    (usage_of : CacheEntry → UsageRecord) (request : Request) (at : Moments) where
  forward_uncached-Replied :
      (subject : Subject) (control : CacheControl) (g : Gateway)
      → Replied request g.store
          (forward_uncached sha256 exchange usage_of subject request at control g)
  unfolding forward_uncached
  forward_uncached-Replied subject control g =
      forward_resolved-Replied exchange subject request at control g
        (resolve_candidates request.protocol request.model request.fallback_models
          request.required_parameters request.preferences g.store)
        (nonempty g.store request _ (
          resolve_candidates-Chosen request.protocol request.model request.fallback_models
            request.required_parameters request.preferences g.store))

  forward_loaded-Replied :
      (subject : Subject) (control : CacheControl) (g : Gateway) (hit : Option CacheEntry × Cache)
      → Replied request g.store
          (forward_loaded sha256 exchange usage_of subject request at control g hit)
  unfolding forward_loaded answer_cached insert_usage touch_api_key
  forward_loaded-Replied subject control g (some entry, cache) = (refl, refl)
  forward_loaded-Replied subject control g (none, cache) =
      forward_uncached-Replied subject control (record g { cache = cache })

  clear_cache-store :
      (subject : Subject) (control : CacheControl) (g : Gateway)
      → (clear_cache subject request control g).store ≡ g.store
  unfolding clear_cache
  clear_cache-store subject control g = ground arith

  forward_through_cache-Replied :
      (subject : Subject) (control : CacheControl) (g : Gateway)
      → Replied request g.store
          (forward_through_cache sha256 exchange usage_of subject request at control g)
  unfolding forward_through_cache
  forward_through_cache-Replied subject control g =
      subst
        (λ s.
          Replied request s
            (forward_through_cache sha256 exchange usage_of subject request at control g))
        (clear_cache-store subject control g)
        (either-Replied request _ (not control.enabled) _ _
          (forward_uncached-Replied subject control (clear_cache subject request control g))
          (forward_loaded-Replied subject control (clear_cache subject request control g) _))

  forward_controlled-Replied :
      (subject : Subject) (g : Gateway) (control : Option CacheControl)
      → Replied request g.store
          (forward_controlled sha256 exchange usage_of subject request at g control)
  forward_controlled-Replied subject g none = refl
  forward_controlled-Replied subject g (some control) =
      forward_through_cache-Replied subject control g

  forward_access-Replied :
      (g : Gateway) (access : Access)
      → Replied request g.store (forward_access sha256 exchange usage_of request at g access)
  forward_access-Replied g (denied d) = refl
  forward_access-Replied g (granted subject) =
      either-Replied request g.store
        (not (authorize_additional_models subject request.protocol request.fallback_models)) _ _
        refl (forward_controlled-Replied subject g _)

  -- Every request is replied to, unless it asks for metadata and the body to write it into is `null`,
  -- where the handler panics: the list of candidates is never empty where the handler
  -- takes its first. A request that is refused, not resolved or over its quota leaves the store as it was, and
  -- one that the cache answers reserves no quota and counts in no window.
  pub forward_compatible-Replied :
      (g : Gateway)
      → Replied request g.store (forward_compatible sha256 exchange usage_of request at g)
  unfolding forward_compatible
  forward_compatible-Replied g = forward_access-Replied g (
      authenticate sha256 at.authenticated request.credentials request.protocol request.model
        g.store)
