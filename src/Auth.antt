-- ===== src/Auth.antt =====
-- internal/auth/apikey.go, and `authenticate` of internal/gateway/handlers.go. SHA-256 is the argument
-- `sha256`, a function from a key to the text of its digest. `GenerateAPIKey`, `Sign` and `Verify`
-- are calls of Go's cryptography and are not modelled.
pub mod Allowed
pub mod Granted
mod Examples
use Prim.Native.String.{◌++◌}
use Prim.Native.Char.{code}
use aiyolo.Base.{
  ℕ, zero, suc, String, ◌≡◌, Bool, true, false, not, ◌&&◌, ◌||◌, ◌===◌, any, List, [], ◌∷◌,
  is_empty, Option, none, some, if◌then◌else◌, leb,
}
use aiyolo.Text.{trim_space, to_lower, has_prefix, is_blank}
use aiyolo.Domain.Time.{Time, after}
use aiyolo.Domain.ApiKeys.{ApiKey, Subject}
use aiyolo.Store.State.{MemoryStore, Result, ok, err}
use aiyolo.Store.Keys.{find_api_key_by_hash}

-- `s[n:]` of an ASCII text.
pub drop_chars : ℕ → String → String
drop_chars zero s = s
drop_chars (suc n) String.[] = ""
drop_chars (suc n) (String.◌∷◌ c s) = drop_chars n s

pub take_chars : ℕ → String → String
take_chars zero s = ""
take_chars (suc n) String.[] = ""
take_chars (suc n) (String.◌∷◌ c s) = String.◌∷◌ c (take_chars n s)

-- `Prefix`: the first 16 characters of a key, which is ASCII.
pub key_prefix : String → String
unfolding take_chars
key_prefix key = take_chars 16 (trim_space key)

-- The two headers that a request may carry its key in.
pub record Headers : Type 0 where
  pub authorization : String
  pub x_api_key : String

-- `ExtractAPIKey`; `none` is `ErrMissingAPIKey`.
unfoldable pub extract_api_key : Headers → Option String
unfolding drop_chars
extract_api_key h =
    let authorization = trim_space h.authorization in
    if has_prefix (to_lower authorization) "bearer "
    then some (trim_space (drop_chars 7 authorization))
    else if not (trim_space h.x_api_key === "")
    then some (trim_space h.x_api_key)
    else none

-- `contains`.
abbrev pub contains : List String → String → Bool
contains values target = any (λ value. value === target) values

-- `Allows`.
unfoldable pub allows : Subject → String → String → Bool
allows subject protocol model =
    if not (trim_space protocol === "")
      && not (is_empty subject.allowed_protocols)
      && not (contains subject.allowed_protocols protocol)
    then false
    else if not (is_empty subject.allowed_models)
        && not (model === "")
        && not (contains subject.allowed_models model)
    then false
    else true

abbrev expired : Time → Option Time → Bool
expired now none = false
expired now (some t) = after now t

-- `APIKeyActive`.
unfoldable pub api_key_active : ApiKey → Time → Bool
api_key_active key now =
    if not (key.status === "") && not (key.status === "active") && not (key.status === "enabled")
    then false
    else not (expired now key.expires_at)

-- `SubjectFromAPIKey`.
unfoldable pub subject_from_api_key : ApiKey → Subject
subject_from_api_key key = record {
  api_key_id = key.id;
  user_id = key.user_id;
  organization_id = key.organization_id;
  project_id = key.project_id;
  allowed_protocols = key.allowed_protocols;
  allowed_models = key.allowed_models;
  rpm_limit = key.rpm_limit;
  tpm_limit = key.tpm_limit;
  concurrent_limit = key.concurrent_limit;
  daily_budget_cents = key.daily_budget_cents;
  monthly_budget_cents = key.monthly_budget_cents;
}

-- The codes of the errors that `authenticate` answers with.
pub data Denial : Type 0 where
  missing_api_key invalid_api_key not_allowed : Denial

pub data Access : Type 0 where
  granted : Subject → Access
  denied : Denial → Access

-- The status that `authenticate` answers with.
abbrev pub denial_status : Denial → ℕ
denial_status missing_api_key = 401
denial_status invalid_api_key = 401
denial_status not_allowed = 403

module _ (sha256 : String → String) where
  -- `HashAPIKey`.
  unfoldable pub hash_api_key : String → String
  hash_api_key key = sha256 (trim_space key)

  -- `authenticate`.
  unfoldable pub authenticate : Time → Headers → String → String → MemoryStore → Access
  authenticate now headers protocol model s = elim (extract_api_key headers) [
    | none ↦ denied missing_api_key
    | some key ↦ elim (find_api_key_by_hash (hash_api_key key) s) [
      | err e ↦ denied invalid_api_key
      | ok found ↦
          if not (api_key_active found now)
          then denied invalid_api_key
          else let subject = subject_from_api_key found in
            if not (allows subject protocol model) then denied not_allowed else granted subject
    ]
  ]

-- `authorizeAdditionalModels`.
unfoldable pub authorize_additional_models : Subject → String → List String → Bool
authorize_additional_models subject protocol [] = true
authorize_additional_models subject protocol (model ∷ models) =
    if allows subject protocol model
    then authorize_additional_models subject protocol models
    else false
