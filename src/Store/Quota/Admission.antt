-- ===== src/Store/Quota/Admission.antt =====
-- internal/storage/memory.go `ReserveQuota`: when a request is accepted, by the entries that the store has
-- and apart from how they are counted.
use aiyolo.Base.{
  ℕ, ◌+◌, ◌-◌, ◌%◌, ◌≡◌, ◌↔◌, refl, String, Bool, ◌&&◌, ◌===◌, ltb, [], ◌∷◌, Option, none, some,
  if◌then◌else◌, length, filter, arith,
}
use aiyolo.Base.Int.{ℤ, pos, ◌+ℤ◌, wrap64, ltb_ℤ, ◌≤ℤ◌, ◌<ℤ◌}
use aiyolo.Dict.{Dict, lookup, values, total, bit}
use aiyolo.Domain.Time.{Time, truncate_minute}
use aiyolo.Domain.Quota.{QuotaRequest, QuotaReservation}
use aiyolo.Store.State.{MemoryStore, LimitWindow, window_key}
use aiyolo.Store.Quota.{is_active, active_count, window_of, or_empty, reserve_at}
use aiyolo.Store.Quota.Limits.{Admits, Accepted, reserve-Admits}

-- A reservation of the key that is not settled and younger than six hours, in nanoseconds.
abbrev holds_slot : String → Time → QuotaReservation → Bool
holds_slot key now r =
    r.api_key_id === key && r.status === "reserved" && ltb now (r.created_at + 21600000000000)

-- How many slots the key has taken.
abbrev pub slots : String → Time → MemoryStore → ℕ
slots key now s = length (filter (holds_slot key now) (values s.reservations))

abbrev requests_in : Option LimitWindow → ℕ
requests_in none = 0
requests_in (some w) = w.requests

abbrev tokens_in : Option LimitWindow → ℤ
tokens_in none = pos 0
tokens_in (some w) = w.tokens

-- The window of the key for the minute that a time lies in.
abbrev window_at : String → Time → MemoryStore → Option LimitWindow
window_at key now s =
    lookup (record { api_key_id = key; window_start = now - now % 60000000000 }) s.limits

abbrev at_least_zero : ℤ → ℤ
at_least_zero n = if ltb_ℤ n (pos 0) then pos 0 else n

-- The room that a request needs: a slot, a request of the minute, and its tokens.
pub record HasRoom (now : Time) (q : QuotaRequest) (s : MemoryStore) : Type 0 where
  pub slot : pos 0 <ℤ q.concurrent_limit → pos (slots q.api_key_id now s) <ℤ q.concurrent_limit
  pub request :
      pos 0 <ℤ q.rpm_limit → pos (requests_in (window_at q.api_key_id now s)) <ℤ q.rpm_limit
  pub tokens :
      pos 0 <ℤ q.tpm_limit
      → wrap64 (tokens_in (window_at q.api_key_id now s) +ℤ at_least_zero q.estimated_tokens)
        ≤ℤ q.tpm_limit

total-slots :
    (key : String) (now : Time) (m : Dict String QuotaReservation)
    → total (λ r. bit (is_active key now r)) m ≡ length (filter (holds_slot key now) (values m))
unfolding total values filter is_active
total-slots key now [] = refl
total-slots key now ((id, r) ∷ m) = ground (arith, total-slots key now m)

active_count-slots :
    (key : String) (now : Time) (s : MemoryStore) → active_count key now s ≡ slots key now s
unfolding active_count
active_count-slots key now s = total-slots key now s.reservations

requests-window : (o : Option LimitWindow) → (or_empty o).requests ≡ requests_in o
requests-window none = refl
requests-window (some w) = refl

tokens-window : (o : Option LimitWindow) → (or_empty o).tokens ≡ tokens_in o
tokens-window none = refl
tokens-window (some w) = refl

module _ (now : Time) (q : QuotaRequest) (s : MemoryStore) where
  room : Admits now q s → HasRoom now q s
  unfolding window_of truncate_minute
  room h = record {
    slot = λ p. rw⁻¹ (active_count-slots q.api_key_id now s) (h.0 p);
    request = λ p. ground (arith, h.1 p, requests-window (window_at q.api_key_id now s));
    tokens = λ p. rw⁻¹ (tokens-window (window_at q.api_key_id now s)) (h.2 p);
  }

  admits : HasRoom now q s → Admits now q s
  unfolding window_of truncate_minute
  admits h = (
    λ p. rw (active_count-slots q.api_key_id now s) (h.slot p),
    λ p. ground (arith, h.request p, requests-window (window_at q.api_key_id now s)),
    λ p. rw (tokens-window (window_at q.api_key_id now s)) (h.tokens p),
  )

  -- The in-memory store, which reads no budget, accepts a request exactly when the key's reservations of the
  -- last six hours that are not settled are fewer than its positive concurrent limit, the requests that its
  -- minute already counts are fewer than its positive limit of requests, and the tokens of the minute with
  -- those estimated, as a 64-bit sum, are within its positive limit of tokens.
  pub reserve-HasRoom : Accepted (reserve_at now q s) ↔ HasRoom now q s
  reserve-HasRoom =
      (λ a. room ((reserve-Admits now q s).0 a), λ h. (reserve-Admits now q s).1 (admits h))
