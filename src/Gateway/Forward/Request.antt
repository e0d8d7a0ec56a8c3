-- ===== src/Gateway/Forward/Request.antt =====
-- internal/gateway/handlers.go `forwardCompatible`: its state, what it reads of a request, and what it
-- answers. Each `time.Now()` is one of the `Moments`.
use aiyolo.Base.{String, Bool, List}
use aiyolo.Domain.Time.{Time}
use aiyolo.Domain.Usage.{UsageRecord}
use aiyolo.Auth.{Headers, Denial}
use aiyolo.Store.State.{MemoryStore, StoreError}
use aiyolo.Gateway.Candidates.{ProviderPreferences}
use aiyolo.Gateway.Resolve.{RequestError}
use aiyolo.Gateway.Cache.{CacheEntry, Cache, CacheHeaders}
use aiyolo.Gateway.Forward.{Response, Progress}

-- The state that the handler changes: the store, and its response cache.
pub record Gateway : Type 0 where
  pub store : MemoryStore
  pub cache : Cache

-- What the handler reads of a request. The usage is the one that `estimateRequestUsage` reads off the
-- body, `wants_metadata` is `metadataRequested`, and the digest is the hexadecimal SHA-256 of the body.
pub record Request : Type 0 where
  pub id : String
  pub credentials : Headers
  pub protocol : String
  pub endpoint : String
  pub model : String
  pub fallback_models : List String
  pub required_parameters : List String
  pub preferences : ProviderPreferences
  pub stream : Bool
  pub wants_metadata : Bool
  pub cache_headers : CacheHeaders
  pub digest : String
  pub estimated : UsageRecord

-- The readings of the clock, in the order in which they are taken.
pub record Moments : Type 0 where
  pub started : Time
  pub authenticated : Time
  pub loaded : Time
  pub reserved : Time
  pub stored : Time
  pub finished : Time
  pub settled : Time
  pub touched : Time

-- What the client is answered; where the handler panics, nothing.
pub data Reply : Type 0 where
  refused : Denial → Reply
  model_not_allowed : Reply
  invalid_cache_ttl : Reply
  cached : CacheEntry → Reply
  unresolved : RequestError → Reply
  over_quota : StoreError → Reply
  bad_body : Reply
  not_sent : Reply
  bad_gateway : Progress → Reply
  relayed : Progress → Response → Reply
  panicked : Progress → Reply
