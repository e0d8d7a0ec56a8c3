-- ===== src/Gateway/Cache.antt =====
-- internal/gateway/handlers.go: the response cache and the headers that control it. The cache's mutex
-- makes each operation one step.
pub mod Fresh
use Prim.Native.String.{◌++◌}
use aiyolo.Base.{
  ℕ, ◌+◌, ◌*◌, String, Bool, true, false, not, ◌&&◌, ◌||◌, ◌===◌, List, [], ◌∷◌, Option, none, some,
  if◌then◌else◌,
}
use aiyolo.Base.Int.{ℤ, pos, pos_part, ltb_ℤ}
use aiyolo.Text.{trim_space, to_lower}
use aiyolo.Text.Numbers.{atoi}
use aiyolo.Dict.{Dict, lookup, insert, erase, string_key}
use aiyolo.Domain.Time.{Time, before, second}

-- `responseCacheEntry`, with the seconds of its lifetime as a natural number, for
-- `parseResponseCacheControl` admits no other.
pub record CacheEntry : Type 0 where
  pub status_code : ℤ
  pub headers : Dict String (List String)
  pub body : String
  pub created_at : Time
  pub ttl_seconds : ℕ
  pub provider_id : String
  pub model_alias : String
  pub upstream_model : String
  pub currency : String
  pub protocol : String
  pub endpoint : String

abbrev pub Cache : Type 0
Cache = Dict String CacheEntry

-- `responseCacheControl`.
pub record CacheControl : Type 0 where
  pub enabled : Bool
  pub clear : Bool
  pub ttl_seconds : ℕ

-- The headers that `parseResponseCacheControl` reads.
pub record CacheHeaders : Type 0 where
  pub cache : String
  pub cache_clear : String
  pub cache_ttl : String

-- `enabledHeaderValue`.
unfoldable pub enabled_header_value : String → Bool
enabled_header_value value =
    let v = to_lower (trim_space value) in
    v === "1" || v === "true" || v === "yes" || v === "enabled"

abbrev pub default_ttl_seconds : ℕ
default_ttl_seconds = 60

-- `ttl < 1 || ttl > 86400`
abbrev pub ttl_rejected : ℤ → Bool
ttl_rejected ttl = ltb_ℤ ttl (pos 1) || ltb_ℤ (pos 86400) ttl

-- The lifetime that the header asks for; `none` is the error `invalid_cache_ttl`.
abbrev pub ttl_asked : Option ℤ → Option ℕ
ttl_asked none = none
ttl_asked (some ttl) = if ttl_rejected ttl then none else some (pos_part ttl)

abbrev pub with_ttl : CacheControl → Option ℕ → Option CacheControl
with_ttl control none = none
with_ttl control (some ttl) = some (record control { ttl_seconds = ttl })

abbrev pub no_cache : CacheControl
no_cache = record { enabled = false; clear = false; ttl_seconds = 0 }

abbrev pub asked_control : CacheHeaders → CacheControl
asked_control headers = record {
  enabled = enabled_header_value headers.cache;
  clear = enabled_header_value headers.cache_clear;
  ttl_seconds = default_ttl_seconds;
}

-- `parseResponseCacheControl`; `none` is the error `invalid_cache_ttl`.
unfoldable pub parse_response_cache_control : CacheHeaders → Bool → Option CacheControl
parse_response_cache_control headers stream =
    let control = asked_control headers in
    let value = trim_space headers.cache_ttl in
    if stream
    then some no_cache
    else if not control.enabled && not control.clear
    then some no_cache
    else if value === ""
    then some control
    else with_ttl control (ttl_asked (atoi value))

-- `responseCacheKey`, from the text of the body's digest. A request with a cache key is no stream.
unfoldable pub response_cache_key : String → String → String → Bool → String → String
response_cache_key api_key_id model endpoint stream digest =
    api_key_id
    ++ ":"
    ++ model
    ++ ":"
    ++ endpoint
    ++ ":"
    ++ (if stream then "true" else "false")
    ++ ":"
    ++ digest

-- `entry.CreatedAt.Add(ttl).Before(now)`
pub is_stale : Time → CacheEntry → Bool
is_stale now entry = before (entry.created_at + entry.ttl_seconds * second) now

-- `deleteResponseCache`.
unfoldable pub delete_response_cache : String → Cache → Cache
delete_response_cache key cache = erase key cache

-- The second critical section of `loadResponseCache`, where the first has read what is stored.
abbrev pub load_entry : Time → String → Cache → Option CacheEntry → Option CacheEntry × Cache
load_entry now key cache none = (none, cache)
load_entry now key cache (some entry) =
    if is_stale now entry then (none, delete_response_cache key cache) else (some entry, cache)

-- `loadResponseCache`, where no other request writes between its critical sections; one that stores a new
-- entry there loses it to the deletion. The entry that it returns is a deep copy, so it is the entry's value.
unfoldable pub load_response_cache : String → Time → Cache → Option CacheEntry × Cache
unfolding is_stale
load_response_cache key now cache = load_entry now key cache (lookup key cache)

-- `storeResponseCache`.
unfoldable pub store_response_cache : String → CacheEntry → Cache → Cache
store_response_cache key entry cache = insert key entry cache
