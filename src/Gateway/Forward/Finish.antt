-- ===== src/Gateway/Forward/Finish.antt =====
-- internal/gateway/handlers.go `forwardCompatible` behind the loop over the candidates: the quota is
-- settled, the usage recorded, and the response cached.
use aiyolo.Json.{null, Decoded, failed, nil_map, decoded}
use aiyolo.Gateway.Body.Rewrite.{Rewritten, kept, rewritten, refused, inject_router_metadata}
use aiyolo.Base.{
  ◌≡◌, refl, String, Bool, true, false, not, ◌&&◌, ltb, Option, none, some, if◌then◌else◌,
}
use aiyolo.Base.Int.{pos}
use aiyolo.Domain.ApiKeys.{Subject}
use aiyolo.Domain.Quota.{QuotaReservation}
use aiyolo.Domain.Usage.{UsageRecord}
use aiyolo.Store.State.{MemoryStore}
use aiyolo.Store.Quota.{settle_quota}
use aiyolo.Store.Usage.{insert_usage}
use aiyolo.Store.Keys.{touch_api_key}
use aiyolo.Gateway.Candidates.{RouteCandidate}
use aiyolo.Gateway.Cache.{CacheEntry, Cache, CacheControl, response_cache_key, store_response_cache}
use aiyolo.Gateway.Forward.{Response, Progress, LoopEnd, left, invalid_json, build_upstream_failed}
use aiyolo.Gateway.Forward.Usage.{Served, failed_usage, answered_usage}
use aiyolo.Gateway.Forward.Request.{
  Gateway, Request, Moments, Reply, bad_body, not_sent, bad_gateway, relayed, panicked,
}

-- The entry that a response leaves in the cache.
abbrev entry_of : Request → Moments → CacheControl → RouteCandidate → Response → CacheEntry
entry_of request at control c response = record {
  status_code = pos response.status;
  headers = response.headers;
  body = response.body;
  created_at = at.stored;
  ttl_seconds = control.ttl_seconds;
  provider_id = c.provider.id;
  model_alias = c.route.public_name;
  upstream_model = c.route.upstream_model;
  currency = c.pricing.currency;
  protocol = request.protocol;
  endpoint = request.endpoint;
}

abbrev pub key_of : Subject → Request → String
key_of subject request =
    response_cache_key subject.api_key_id request.model request.endpoint request.stream
      request.digest

-- The write to the cache of a response that was delivered.
unfoldable pub cache_response :
    Subject → Request → Moments → CacheControl → RouteCandidate → Response → Cache → Cache
cache_response subject request at control c response cache =
    if not request.stream && response.delivered && control.enabled && ltb response.status 400
    then store_response_cache (key_of subject request) (entry_of request at control c response)
        cache
    else cache

abbrev pub served_of : Subject → Request → Moments → Served
served_of subject request at = record {
  request_id = request.id;
  subject = subject;
  protocol = request.protocol;
  endpoint = request.endpoint;
  stream = request.stream;
  started = at.started;
  finished = at.finished;
}

-- `SettleQuota` and `InsertUsage`, one after the other.
abbrev pub close_ledger : Moments → QuotaReservation → UsageRecord → MemoryStore → MemoryStore
close_ledger at reservation u s =
    insert_usage at.settled u (settle_quota at.settled reservation.id u s)

-- Whether a rewriting of a body panics.
abbrev pub panics : Rewritten → Bool
panics kept = false
panics (rewritten payload) = false
panics refused = false
panics Rewritten.panicked = true

-- The body that the metadata would be written into is the text `null`.
abbrev pub HasNullBody : Option Response → Type 0
HasNullBody none = ⊥
HasNullBody (some response) = response.whole ≡ nil_map

-- Where the injection of metadata panics.
pub null_of_panics :
    (b : Decoded) → panics (inject_router_metadata false b null) ≡ true → b ≡ nil_map
unfolding inject_router_metadata
null_of_panics failed h = cc h
null_of_panics nil_map h = refl
null_of_panics (decoded payload) h = cc h

pub panics_of_null :
    (b : Decoded) → b ≡ nil_map → panics (inject_router_metadata false b null) ≡ true
unfolding inject_router_metadata
panics_of_null failed h = cc h
panics_of_null nil_map h = refl
panics_of_null (decoded payload) h = cc h

-- The handler behind the loop, where the loop is left for an answer. `injectRouterMetadata` panics or
-- does not whatever the metadata is, which comes into the body that the response has here.
abbrev pub answer :
    Subject
    → Request
    → Moments
    → CacheControl
    → QuotaReservation
    → Gateway
    → Progress
    → Option Response
    → Reply × Gateway
answer subject request at control reservation g p none = (
  bad_gateway p,
  record g {
    store =
        close_ledger at reservation (failed_usage (served_of subject request at) p.selected)
          g.store;
  },
)
answer subject request at control reservation g p (some response) =
    if request.wants_metadata && panics (inject_router_metadata false response.whole null)
    then (panicked p, g)
    else (
      relayed p response,
      record {
        store = touch_api_key at.touched subject.api_key_id (
            close_ledger at reservation
              (answered_usage (served_of subject request at) p.selected response) g.store);
        cache = cache_response subject request at control p.selected response g.cache;
      },
    )

-- The handler behind the loop, on each way in which the loop ends.
unfoldable pub finish :
    Subject
    → Request
    → Moments
    → CacheControl
    → QuotaReservation
    → Gateway
    → LoopEnd
    → Reply × Gateway
unfolding cache_response
finish subject request at control reservation g invalid_json = (bad_body, g)
finish subject request at control reservation g build_upstream_failed = (not_sent, g)
finish subject request at control reservation g (left p) =
    answer subject request at control reservation g p p.response
