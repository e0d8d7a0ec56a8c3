-- ===== src/Store/Quota/Settled.antt =====
-- `SettleQuota`: it gives the slot back, corrects the window's tokens, and acts once.
use aiyolo.Base.{
  ℕ, ◌+◌, ◌≤◌, String, ◌≡◌, ◌≢◌, refl, false, ◌===◌, ◌⊎◌, none, some, arith, eq_iff, inl, inr,
  Option-cases, Bool-cases,
}
use aiyolo.Base.Int.{
  ℤ, pos, negsuc, int_laws, pos_plus, difference-IsInt64, ◌+ℤ◌, ◌-ℤ◌, wrap64, IsInt64,
  wrap64_of_IsInt64, leb_ℤ,
}
use aiyolo.Dict.{lookup, bit, string_key}
use aiyolo.Dict.Laws.{lookup-insert_self}
use aiyolo.Domain.Time.{Time}
use aiyolo.Domain.Quota.{QuotaReservation}
use aiyolo.Domain.Usage.{UsageRecord}
use aiyolo.Store.State.{MemoryStore, LimitWindow}
use aiyolo.Store.Quota.{
  reserved, is_active, active_count, window_of, clamp_zero, put_window, put_reservation,
  actual_usage_tokens, correct_window, settled_reservation, settle_stored, settle_quota,
}
use aiyolo.Store.Quota.Limits.{
  active_count-put_reservation, active_count-put_window, window_of-put_window_self,
  window_of-put_reservation, clamp_zero_pos,
}

replaced : (t a e : ℕ) → pos (t + e) +ℤ (pos a -ℤ pos e) ≡ pos (t + a)
replaced t a e = omega int_laws

corrected_ℕ :
    (t a e : ℕ)
    → IsInt64 (pos t +ℤ pos e)
    → IsInt64 (pos (t + a))
    → clamp_zero (wrap64 (wrap64 (pos t +ℤ pos e) +ℤ wrap64 (pos a -ℤ pos e))) ≡ pos (t + a)
corrected_ℕ t a e i j =
    let i' : IsInt64 (pos (t + e)) = rw (pos_plus t e) at i in
    rw
      (
        wrap64_of_IsInt64 (pos t +ℤ pos e) i,
        wrap64_of_IsInt64 (pos a -ℤ pos e)
            (difference-IsInt64 a e (omega (arith, j)) (omega (arith, i'))),
        pos_plus t e,
        replaced t a e,
        wrap64_of_IsInt64 (pos (t + a)) j,
      )
      (clamp_zero_pos (t + a))

clamp_zero_cases : (z : ℤ) → (n : ℕ) × (clamp_zero z ≡ pos n)
clamp_zero_cases (pos n) = (n, clamp_zero_pos n)
clamp_zero_cases (negsuc n) = (0, ground arith)

-- The correction takes the estimate out and puts the actual tokens in.
pub corrected_tokens :
    (t a : ℕ) (z : ℤ)
    → IsInt64 (pos t +ℤ clamp_zero z)
    → IsInt64 (pos (t + a))
    → clamp_zero (wrap64 (wrap64 (pos t +ℤ clamp_zero z) +ℤ wrap64 (pos a -ℤ clamp_zero z)))
      ≡ pos (t + a)
corrected_tokens t a z i j =
    let (n, e) = clamp_zero_cases z in rw e (corrected_ℕ t a n (rw e at i) j)

-- Neither way of closing a reservation leaves it reserved.
pub closed_status :
    (clock : Time) (u : UsageRecord) (r : QuotaReservation)
    → ((settled_reservation clock u r).status === reserved) ≡ false
closed_status clock u r = elim (Bool-cases (leb_ℤ (pos 400) u.status_code)) [
  | inl bad ↦ rw bad refl
  | inr good ↦ rw good refl
]

closed_not_active :
    (key : String) (now clock : Time) (u : UsageRecord) (r : QuotaReservation)
    → is_active key now (settled_reservation clock u r) ≡ false
unfolding is_active
closed_not_active key now clock u r = ground (arith, closed_status clock u r)

module _ (clock : Time) (u : UsageRecord) where
  pub lookup-settle_stored :
      (id : String) (r : QuotaReservation) (s : MemoryStore)
      → lookup id (settle_stored clock id u r s).reservations ≡ some (settled_reservation clock u r)
  unfolding settle_stored put_reservation put_window
  lookup-settle_stored id r s = lookup-insert_self id _ s.reservations

  pub active_count-settle_stored :
      (key : String) (now : Time) (id : String) (r : QuotaReservation) (s : MemoryStore)
      → lookup id s.reservations ≡ some r
      → active_count key now (settle_stored clock id u r s) + bit (is_active key now r)
        ≡ active_count key now s
  unfolding settle_stored put_window
  active_count-settle_stored key now id r s h =
      let w : LimitWindow =
        correct_window (actual_usage_tokens u) r.estimated_tokens
          (window_of r.api_key_id r.window_start s) in
      ground (
        arith,
        active_count-put_reservation key now id (settled_reservation clock u r)
            (put_window r.api_key_id r.window_start w s),
        active_count-put_window key r.api_key_id now r.window_start w s,
        closed_not_active key now clock u r,
      )

pub window-settle_stored :
    (clock : Time) (u : UsageRecord) (id : String) (r : QuotaReservation) (s : MemoryStore)
    → window_of r.api_key_id r.window_start (settle_stored clock id u r s)
      ≡ correct_window
          (actual_usage_tokens u)
          r.estimated_tokens
          (window_of r.api_key_id r.window_start s)
unfolding settle_stored
window-settle_stored clock u id r s =
    rw window_of-put_reservation (window_of-put_window_self r.api_key_id r.window_start _ s)

-- No call of `SettleQuota` for this reservation changes the store.
abbrev pub Inert : String → MemoryStore → Type 0
Inert id s = (clock : Time) (u : UsageRecord) → settle_quota clock id u s ≡ s

-- The reservation is open: a call of `SettleQuota` settles it.
abbrev pub Open : String → MemoryStore → QuotaReservation → Type 0
Open id s r = (id ≢ "") × (lookup id s.reservations ≡ some r) × (r.status ≡ reserved)

Inert-empty : (id : String) (s : MemoryStore) → id ≡ "" → Inert id s
unfolding settle_quota
Inert-empty id s e clock u = ground (arith, eq_iff id "")

Inert-missing : (id : String) (s : MemoryStore) → lookup id s.reservations ≡ none → Inert id s
unfolding settle_quota
Inert-missing id s e clock u = ground arith

pub Inert-closed :
    (id : String) (s : MemoryStore) (r : QuotaReservation)
    → lookup id s.reservations ≡ some r
    → (r.status === reserved) ≡ false
    → Inert id s
unfolding settle_quota
Inert-closed id s r e c clock u = ground arith

pub settle_of_Open :
    (clock : Time) (u : UsageRecord) (id : String) (s : MemoryStore) (r : QuotaReservation)
    → Open id s r
    → settle_quota clock id u s ≡ settle_stored clock id u r s
unfolding settle_quota
settle_of_Open clock u id s r h = ground (arith, eq_iff id "", eq_iff r.status reserved)

pub settle_cases :
    (id : String) (s : MemoryStore) → Inert id s ⊎ ((r : QuotaReservation) × Open id s r)
settle_cases id s = elim (Bool-cases (id === "")) [
  | inl blank ↦ inl (Inert-empty id s ((eq_iff id "").0 blank))
  | inr named ↦ elim (Option-cases (lookup id s.reservations)) [
    | inl missing ↦ inl (Inert-missing id s missing)
    | inr (r, found) ↦ elim (Bool-cases (r.status === reserved)) [
      | inr closed ↦ inl (Inert-closed id s r found closed)
      | inl open_now ↦
          inr (r, (ground (arith, eq_iff id ""), found, (eq_iff r.status reserved).0 open_now))
    ]
  ]
]

-- To settle a reservation a second time changes nothing, whatever usage and time are given.
pub settle-settle :
    (clock clock' : Time) (u u' : UsageRecord) (id : String) (s : MemoryStore)
    → settle_quota clock' id u' (settle_quota clock id u s) ≡ settle_quota clock id u s
settle-settle clock clock' u u' id s = elim (settle_cases id s) [
  | inl inert ↦ rw (inert clock u) (inert clock' u')
  | inr (r, h) ↦ rw (settle_of_Open clock u id s r h) (
      Inert-closed id _ _ (lookup-settle_stored clock u id r s) (closed_status clock u r) clock' u')
]

-- Settling frees the slot of an open reservation, and no other.
pub active_count-settle_le :
    (key : String) (now clock : Time) (u : UsageRecord) (id : String) (s : MemoryStore)
    → active_count key now (settle_quota clock id u s) ≤ active_count key now s
active_count-settle_le key now clock u id s = elim (settle_cases id s) [
  | inl inert ↦ rw (inert clock u) (omega arith)
  | inr (r, h) ↦
      rw (settle_of_Open clock u id s r h)
        (omega (arith, active_count-settle_stored clock u key now id r s h.1))
]
