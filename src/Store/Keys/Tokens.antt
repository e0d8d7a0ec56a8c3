-- ===== src/Store/Keys/Tokens.antt =====
-- An install token is good once, before it expires, for one API key.
use aiyolo.Base.{String, ◌≡◌, ◌<◌, none, some, arith, inl, inr, Option-cases}
use aiyolo.Dict.{Dict, lookup, insert, string_key}
use aiyolo.Dict.Laws.{lookup-insert_self}
use aiyolo.Domain.Time.{Time, or_now}
use aiyolo.Domain.ApiKeys.{ApiKey, CodexInstallToken}
use aiyolo.Store.State.{MemoryStore, ok, err, not_found}
use aiyolo.Store.Keys.{put_api_key, find_api_key_by_hash, redeem_at}

-- The token is there, unused, and not expired.
abbrev pub Redeemable : Time → CodexInstallToken → String → MemoryStore → Type 0
Redeemable at token hash s =
    (lookup hash s.codex_tokens ≡ some token) × (token.used_at ≡ none) × (at < token.expires_at)

abbrev spend : Time → ApiKey → CodexInstallToken → CodexInstallToken
spend at key token = record token { used_at = some at; api_key_id = key.id }

abbrev dated : Time → ApiKey → ApiKey
dated at key = record key { created_at = or_now at key.created_at }

put_api_key_self :
    (key : ApiKey) (m : Dict String ApiKey) → lookup key.key_hash (put_api_key key m) ≡ some key
unfolding put_api_key
put_api_key_self key m = lookup-insert_self key.key_hash key _

module _ (at : Time) (hash : String) (key : ApiKey) (s : MemoryStore) where
  -- A redemption succeeds only for a token that is there, unused and not expired. It marks the token
  -- with its time and the key's identifier, and the key is found under its hash.
  pub redeem-Redeemable :
      (spent : CodexInstallToken) (s' : MemoryStore)
      → redeem_at at hash key s ≡ ok (spent, s')
      → (token : CodexInstallToken) × Redeemable at token hash s
        × (spent ≡ record token { used_at = some at; api_key_id = key.id })
        × (lookup hash s'.codex_tokens ≡ some spent)
        × (find_api_key_by_hash key.key_hash s'
            ≡ ok (record key { created_at = or_now at key.created_at }))
  unfolding redeem_at find_api_key_by_hash
  redeem-Redeemable spent s' h = elim (Option-cases (lookup hash s.codex_tokens)) [
    | inl missing ↦ absurd (ground arith)
    | inr (token, found) ↦ (
      token,
      (found, ground arith, ground arith),
      ground arith,
      ground (arith, lookup-insert_self hash (spend at key token) s.codex_tokens),
      ground (arith, put_api_key_self (dated at key) s.api_keys),
    )
  ]

  -- A token that is there, unused and not expired is redeemed: the redemption succeeds and returns
  -- the token marked with its time and the key's identifier.
  pub redeem_of_Redeemable :
      (token : CodexInstallToken)
      → Redeemable at token hash s
      → (s' : MemoryStore) × (redeem_at at hash key s
          ≡ ok (record token { used_at = some at; api_key_id = key.id }, s'))
  unfolding redeem_at
  redeem_of_Redeemable token h = (
    record s {
      api_keys = put_api_key (dated at key) s.api_keys;
      codex_tokens = insert hash (spend at key token) s.codex_tokens;
    },
    ground arith,
  )

  -- A token that was redeemed is refused from then on, at any time and for any key.
  pub redeem_twice :
      (spent : CodexInstallToken) (s' : MemoryStore) (later : Time) (other : ApiKey)
      → redeem_at at hash key s ≡ ok (spent, s')
      → redeem_at later hash other s' ≡ err not_found
  unfolding redeem_at
  redeem_twice spent s' later other h =
      let (token, _, marked, stored, _) = redeem-Redeemable spent s' h in ground arith
