-- ===== src/Auth/Examples.antt =====
-- A request of one key, with a digest that is the text itself.
use aiyolo.Base.{◌≡◌, refl, String, true, some}
use aiyolo.Text.{trim_space, to_lower, has_prefix}
use aiyolo.Dict.{lookup, string_key}
use aiyolo.Domain.ApiKeys.{ApiKey}
use aiyolo.Store.State.{ok}
use aiyolo.Store.Keys.{find_api_key_by_hash}
use aiyolo.Auth.{
  Headers, extract_api_key, allows, api_key_active, subject_from_api_key, granted, authenticate,
  hash_api_key,
}
use aiyolo.Auth.Granted.{InForce, authenticate-granted}
use aiyolo.Fixtures.{noon, alice, store_1}

abbrev digest_1 : String → String
digest_1 s = s

abbrev model_1 : String
model_1 = "fast"

abbrev headers_1 : Headers
headers_1 = record { authorization = "Bearer  h1"; x_api_key = "" }

granted_1 : authenticate digest_1 noon headers_1 "openai" "fast" store_1 ≡ granted alice
unfolding authenticate extract_api_key find_api_key_by_hash has_prefix to_lower trim_space lookup
    hash_api_key api_key_active allows subject_from_api_key
granted_1 = refl

authenticate-granted_example :
    (text : String) × (key : ApiKey) × (extract_api_key headers_1 ≡ some text)
    × (find_api_key_by_hash (digest_1 (trim_space text)) store_1 ≡ ok key)
    × InForce key noon
    × (alice ≡ subject_from_api_key key)
    × (allows alice "openai" model_1 ≡ true)
authenticate-granted_example =
    authenticate-granted digest_1 noon headers_1 "openai" "fast" store_1 alice granted_1
