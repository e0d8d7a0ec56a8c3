-- ===== src/Auth/Granted.antt =====
-- Whom `authenticate` lets in.
use aiyolo.Base.{
  String, ◌≡◌, ◌⊎◌, ◌↔◌, ◌≤◌, inl, inr, refl, true, eq_iff, some, arith, Option-cases,
}
use aiyolo.Text.{trim_space}
use aiyolo.Domain.Time.{Time}
use aiyolo.Domain.ApiKeys.{ApiKey, Subject}
use aiyolo.Store.State.{MemoryStore, Result, ok, err, StoreError}
use aiyolo.Store.Keys.{find_api_key_by_hash}
use aiyolo.Auth.{
  Headers, extract_api_key, allows, api_key_active, subject_from_api_key, granted, hash_api_key,
  authenticate,
}

-- The key is in force: its status is one of three, and its expiry has not passed.
abbrev pub InForce : ApiKey → Time → Type 0
InForce key now =
    ((key.status ≡ "") ⊎ (key.status ≡ "active") ⊎ (key.status ≡ "enabled"))
    × ((t : Time) → key.expires_at ≡ some t → now ≤ t)

active_sound : (key : ApiKey) (now : Time) → api_key_active key now ≡ true → InForce key now
unfolding api_key_active
active_sound key now h = (
  ground (arith, eq_iff key.status "", eq_iff key.status "active", eq_iff key.status "enabled"),
  (λ t e. ground arith),
)

active_complete : (key : ApiKey) (now : Time) → InForce key now → api_key_active key now ≡ true
unfolding api_key_active
active_complete key now h = elim (Option-cases key.expires_at) [
  | inl forever ↦
      ground (arith, eq_iff key.status "", eq_iff key.status "active", eq_iff key.status "enabled")
  | inr (t, limited) ↦ ground (
    arith,
    h.1 t limited,
    eq_iff key.status "",
    eq_iff key.status "active",
    eq_iff key.status "enabled",
  )
]

-- A key is active exactly when its status is empty, "active" or "enabled", and an expiry that it has
-- is not past.
pub api_key_active_iff :
    (key : ApiKey) (now : Time) → (api_key_active key now ≡ true) ↔ InForce key now
api_key_active_iff key now = (active_sound key now, active_complete key now)

Result-cases {ℓ} :
    {A : Type ℓ} (r : Result A) → ((a : A) × (r ≡ ok a)) ⊎ ((e : StoreError) × (r ≡ err e))
Result-cases (ok a) = inl (a, refl)
Result-cases (err e) = inr (e, refl)

module _ (sha256 : String → String) (now : Time) (headers : Headers) (protocol model : String)
    (s : MemoryStore) where
  -- Access is granted only to the subject of a stored key: the request carried a key, the hash of its
  -- trimmed text leads to that key, the key is in force, and it allows the protocol and the model.
  pub authenticate-granted :
      (subject : Subject)
      → authenticate sha256 now headers protocol model s ≡ granted subject
      → (text : String) × (key : ApiKey) × (extract_api_key headers ≡ some text)
        × (find_api_key_by_hash (sha256 (trim_space text)) s ≡ ok key)
        × InForce key now
        × (subject ≡ subject_from_api_key key)
        × (allows subject protocol model ≡ true)
  unfolding authenticate hash_api_key
  authenticate-granted subject h = elim (Option-cases (extract_api_key headers)) [
    | inl missing ↦ absurd (ground arith)
    | inr (text, given) ↦ elim (Result-cases (find_api_key_by_hash (sha256 (trim_space text)) s)) [
      | inr (e, unknown) ↦ absurd (ground arith)
      | inl (key, found) ↦
          (text, key, given, found, active_sound key now (ground arith), ground arith, ground arith)
    ]
  ]
