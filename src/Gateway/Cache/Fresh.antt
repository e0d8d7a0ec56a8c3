-- ===== src/Gateway/Cache/Fresh.antt =====
-- What the response cache returns, and for how long.
use aiyolo.Base.{
  ◌+◌, ◌*◌, ◌≤◌, ◌≡◌, ◌≢◌, ◌⊎◌, refl, String, Bool, true, false, ◌===◌, eq_iff, Option, none, some,
  arith, if◌then◌else◌, Option-cases, Bool-cases, inl, inr,
}
use aiyolo.Text.{trim_space}
use aiyolo.Text.Numbers.{atoi}
use aiyolo.Dict.{lookup, string_key}
use aiyolo.Dict.Laws.{lookup-insert, lookup-erase}
use aiyolo.Domain.Time.{Time, second}
use aiyolo.Gateway.Cache.{
  CacheEntry, Cache, CacheControl, CacheHeaders, parse_response_cache_control, is_stale,
  delete_response_cache, load_entry, load_response_cache, store_response_cache,
}

-- What a load returns depends on what is stored under its key alone.
load_entry-result :
    (key : String) (now : Time) (c d : Cache) (o : Option CacheEntry)
    → (load_entry now key c o).0 ≡ (load_entry now key d o).0
load_entry-result key now c d none = refl
load_entry-result key now c d (some entry) = ground arith

-- A stored response is returned under its key until its lifetime is over, and not afterwards; a load
-- of another key is not changed by it.
pub load-store :
    (key other : String) (now : Time) (entry : CacheEntry) (cache : Cache)
    → (load_response_cache other now (store_response_cache key entry cache)).0 ≡ (
        if key === other
        then if is_stale now entry then none else some entry
        else (load_response_cache other now cache).0)
unfolding load_response_cache store_response_cache
load-store key other now entry cache =
    rw (lookup-insert key other entry cache) (elim (Bool-cases (key === other)) [
      | inl same ↦ rw same (ground arith)
      | inr apart ↦ rw apart (load_entry-result other now _ cache (lookup other cache))
    ])

-- A load returns what is stored under the key and not past its lifetime; it removes no other key's
-- entry, and where it returns nothing, nothing is stored under the key afterwards.
pub load-fresh :
    (key other : String) (now : Time) (cache : Cache)
    → ((entry : CacheEntry)
        → (load_response_cache key now cache).0 ≡ some entry
        → (lookup key cache ≡ some entry) × (now ≤ entry.created_at + entry.ttl_seconds * second))
      × (key ≢ other → lookup other (load_response_cache key now cache).1 ≡ lookup other cache)
      × ((load_response_cache key now cache).0 ≡ none
          → lookup key (load_response_cache key now cache).1 ≡ none)
unfolding load_response_cache is_stale delete_response_cache
load-fresh key other now cache = elim (Option-cases (lookup key cache)) [
  | inl missing ↦ rw missing (ground arith)
  | inr (entry, found) ↦ rw found (
      ground (
        arith,
        lookup-erase key other cache,
        lookup-erase key key cache,
        eq_iff key other,
        eq_iff key key,
      ))
]

-- A request may use the cache only when it is no stream, and then for a lifetime of one second to one
-- day.
pub parse_response_cache_control-bounds :
    (headers : CacheHeaders) (stream : Bool) (control : CacheControl)
    → parse_response_cache_control headers stream ≡ some control
    → (control.enabled ≡ true) ⊎ (control.clear ≡ true)
    → (stream ≡ false) × (1 ≤ control.ttl_seconds) × (control.ttl_seconds ≤ 86400)
unfolding parse_response_cache_control
parse_response_cache_control-bounds headers stream control h used =
    elim (Option-cases (atoi (trim_space headers.cache_ttl))) [
      | inl unread ↦ ground arith
      | inr (ttl, read) ↦ ground arith
    ]
