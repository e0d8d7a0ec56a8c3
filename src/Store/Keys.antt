-- ===== src/Store/Keys.antt =====
-- internal/storage/memory.go: API keys by their hash, and the install tokens of Codex.
pub mod Ids
pub mod Rotation
pub mod Tokens
mod Examples
use aiyolo.Base.{
  String, Bool, true, false, not, ◌&&◌, ◌||◌, ◌===◌, List, [], ◌∷◌, Option, none, some,
  if◌then◌else◌,
}
use aiyolo.Dict.{Dict, lookup, insert, delete_where, values, string_key}
use aiyolo.Domain.Time.{Time, or_now, before}
use aiyolo.Domain.ApiKeys.{ApiKey, CodexInstallToken}
use aiyolo.Store.State.{MemoryStore, Result, ok, err, not_found, or_not_found, ◌>>=◌, ◌>>◌, fail_if}

-- The loop that drops the key's other hashes, and the write of the key under its hash.
pub put_api_key : ApiKey → Dict String ApiKey → Dict String ApiKey
put_api_key key m =
    insert key.key_hash key
      (delete_where (λ hash existing. existing.id === key.id && not (hash === key.key_hash)) m)

-- `CreateAPIKey`.
unfoldable pub create_api_key : Time → ApiKey → MemoryStore → MemoryStore
unfolding put_api_key
create_api_key clock key s =
    let dated = record key { created_at = or_now clock key.created_at } in
    record s { api_keys = put_api_key dated s.api_keys }

-- `FindAPIKeyByHash`.
unfoldable pub find_api_key_by_hash : String → MemoryStore → Result ApiKey
find_api_key_by_hash hash s = or_not_found (lookup hash s.api_keys)

-- The loop of `TouchAPIKey`, which stops at the first key with the identifier.
pub touch_keys : Time → String → Dict String ApiKey → Dict String ApiKey
touch_keys clock id [] = []
touch_keys clock id ((hash, key) ∷ m) =
    if key.id === id
    then (hash, record key { last_used_at = some clock }) ∷ m
    else (hash, key) ∷ touch_keys clock id m

-- `TouchAPIKey`.
unfoldable pub touch_api_key : Time → String → MemoryStore → MemoryStore
unfolding touch_keys
touch_api_key clock id s = record s { api_keys = touch_keys clock id s.api_keys }

-- `CreateCodexInstallToken`.
unfoldable pub create_codex_install_token : Time → CodexInstallToken → MemoryStore → MemoryStore
create_codex_install_token clock token s =
    let dated = record token {
      created_at = or_now clock token.created_at;
      platform = if token.platform === "" then "windows" else token.platform;
    } in
    record s { codex_tokens = insert dated.token_hash dated s.codex_tokens }

abbrev is_used : Option Time → Bool
is_used none = false
is_used (some t) = true

-- `RedeemCodexInstallToken`, at the redemption's time.
pub redeem_at : Time → String → ApiKey → MemoryStore → Result (CodexInstallToken × MemoryStore)
redeem_at at token_hash key s = do
  token ← or_not_found (lookup token_hash s.codex_tokens)
  fail_if (is_used token.used_at || not (before at token.expires_at)) not_found
  let dated = record key { created_at = or_now at key.created_at }
  let spent = record token { used_at = some at; api_key_id = key.id }
  ok (
    spent,
    record s {
      api_keys = put_api_key dated s.api_keys;
      codex_tokens = insert token_hash spent s.codex_tokens;
    },
  )

unfoldable pub redeem_codex_install_token :
    Time → String → ApiKey → Time → MemoryStore → Result (CodexInstallToken × MemoryStore)
unfolding redeem_at put_api_key
redeem_codex_install_token clock token_hash key redeemed_at s =
    redeem_at (or_now clock redeemed_at) token_hash key s
