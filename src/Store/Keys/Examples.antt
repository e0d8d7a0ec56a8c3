-- ===== src/Store/Keys/Examples.antt =====
-- One key, and one install token, in a small store.
use aiyolo.Base.{◌≡◌, refl, [], ◌∷◌, some, arith}
use aiyolo.Dict.{lookup, insert, delete_where, string_key}
use aiyolo.Domain.Time.{or_now}
use aiyolo.Domain.ApiKeys.{ApiKey, CodexInstallToken}
use aiyolo.Store.State.{MemoryStore, ok}
use aiyolo.Store.Keys.{find_api_key_by_hash, redeem_at, put_api_key}
use aiyolo.Store.Keys.Ids.{KeysInv}
use aiyolo.Store.Keys.Tokens.{Redeemable, redeem-Redeemable}
use aiyolo.Fixtures.{noon, alice_key, token_1, store_1}

-- The key under a new hash.
abbrev rotated_key : ApiKey
rotated_key = record alice_key { key_hash = "h2" }

abbrev spent_1 : CodexInstallToken
spent_1 = record token_1 { used_at = some noon; api_key_id = "key_1" }

abbrev store_redeemed : MemoryStore
store_redeemed = record store_1 {
  api_keys = ("h2", rotated_key) ∷ [];
  codex_tokens = ("t1", spent_1) ∷ [];
}

redeemed_1 : redeem_at noon "t1" rotated_key store_1 ≡ ok (spent_1, store_redeemed)
unfolding redeem_at put_api_key lookup insert delete_where
redeemed_1 = refl

fits_token_1 : Redeemable noon token_1 "t1" store_1
unfolding lookup
fits_token_1 = (refl, refl, omega arith)

keys_1 : KeysInv store_1.api_keys
unfolding lookup
keys_1 = ((refl, tt), (tt, tt))

redeem-Redeemable_example :
    (token : CodexInstallToken) × Redeemable noon token "t1" store_1
    × (spent_1 ≡ record token { used_at = some noon; api_key_id = rotated_key.id })
    × (lookup "t1" store_redeemed.codex_tokens ≡ some spent_1)
    × (find_api_key_by_hash "h2" store_redeemed
        ≡ ok (record rotated_key { created_at = or_now noon rotated_key.created_at }))
redeem-Redeemable_example =
    redeem-Redeemable noon "t1" rotated_key store_1 spent_1 store_redeemed redeemed_1
