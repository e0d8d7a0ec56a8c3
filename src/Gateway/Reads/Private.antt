-- ===== src/Gateway/Reads/Private.antt =====
-- What a client may read: its own usage, and its own key.
use aiyolo.Base.{◌≡◌, ◌⊎◌, refl, String, ◌===◌, eq_iff, arith, inl, inr, Bool-cases}
use aiyolo.Text.{trim_space}
use aiyolo.Domain.Time.{Time}
use aiyolo.Domain.ApiKeys.{Subject}
use aiyolo.Domain.Usage.{UsageRecord}
use aiyolo.Auth.{Headers, Access, granted, denied, authenticate}
use aiyolo.Store.State.{MemoryStore, Result, ok, err}
use aiyolo.Store.Usage.{get_usage_by_request_id}
use aiyolo.Gateway.Reads.{shown, belongs_to_other, show_generation, find_generation, generation}

module _ (s : MemoryStore) (id : String) (u : UsageRecord) where
  -- The record is of the request, and of the subject's key where both are named.
  abbrev pub Own : Subject → Type 0
  Own subject =
      (get_usage_by_request_id (trim_space id) s ≡ ok u)
      × ((u.api_key_id ≡ "") ⊎ (subject.api_key_id ≡ "") ⊎ (u.api_key_id ≡ subject.api_key_id))

  show_generation-Own :
      (subject : Subject) (r : Result UsageRecord)
      → get_usage_by_request_id (trim_space id) s ≡ r
      → show_generation subject r ≡ shown u
      → Own subject
  unfolding belongs_to_other
  show_generation-Own subject (err e) h k = absurd (ground arith)
  show_generation-Own subject (ok v) h k = ground (
    arith,
    eq_iff v.api_key_id "",
    eq_iff subject.api_key_id "",
    eq_iff v.api_key_id subject.api_key_id,
  )

  find_generation-Own :
      (access : Access)
      → find_generation id s access ≡ shown u
      → (subject : Subject) × (access ≡ granted subject) × Own subject
  find_generation-Own (denied d) h = absurd (ground arith)
  find_generation-Own (granted subject) h = (
    subject,
    refl,
    show_generation-Own subject (get_usage_by_request_id (trim_space id) s) refl
        (elim (Bool-cases (trim_space id === "")) [
          | inl blank ↦ absurd (ground arith)
          | inr named ↦ ground arith
        ]),
  )

-- The usage of a request is shown only to a client that authenticates with the API key that the record
-- names, unless the record or the client's subject names no key; and it is the record that is looked
-- up under the trimmed identifier.
pub generation-Own :
    (sha256 : String → String) (now : Time) (headers : Headers) (id : String) (s : MemoryStore)
    (u : UsageRecord)
    → generation sha256 now headers id s ≡ shown u
    → (subject : Subject) × (authenticate sha256 now headers "" "" s ≡ granted subject)
      × Own s id u subject
unfolding generation
generation-Own sha256 now headers id s u h =
    find_generation-Own s id u (authenticate sha256 now headers "" "" s) h
