-- ===== src/Store/Quota/Limits.antt =====
-- What an accepted reservation guarantees: each limit of the key holds in the store that it leaves.
use aiyolo.Base.{
  ℕ, ◌+◌, ◌*◌, ◌≤◌, String, ◌≡◌, ◌≢◌, refl, Bool, ◌===◌, ◌==◌, ◌&&◌, ◌↔◌, ◌⊎◌, ltb, none, arith,
  if◌then◌else◌, eq_iff,
}
use aiyolo.Base.Int.{ℤ, pos, ◌+ℤ◌, wrap64, ◌≤ℤ◌, ◌<ℤ◌, IsInt64, wrap64_overflow}
use aiyolo.Dict.{lookup, bit, weight, string_key}
use aiyolo.Dict.Laws.{total-insert, lookup-insert}
use aiyolo.Domain.Time.{Time, hour, truncate_minute}
use aiyolo.Domain.Quota.{QuotaRequest, QuotaReservation}
use aiyolo.Store.State.{MemoryStore, LimitWindow, Result, ok, err, window_key}
use aiyolo.Store.Quota.{
  is_active, active_count, window_of, add_request, clamp_zero, new_reservation, put_window,
  put_reservation, reserve_at,
}

-- One reservation more or less changes the active count by one at most.
pub active_count-put_reservation :
    (key : String) (now : Time) (id : String) (r : QuotaReservation) (s : MemoryStore)
    → active_count key now (put_reservation id r s)
        + weight (λ x. bit (is_active key now x)) (lookup id s.reservations)
      ≡ active_count key now s + bit (is_active key now r)
unfolding active_count put_reservation
active_count-put_reservation key now id r s =
    total-insert (λ x. bit (is_active key now x)) id r s.reservations

pub active_count-put_window :
    (key k : String) (now start : Time) (w : LimitWindow) (s : MemoryStore)
    → active_count key now (put_window k start w s) ≡ active_count key now s
unfolding active_count put_window
active_count-put_window key k now start w s = refl

bit-le : (b : Bool) → bit b ≤ 1
bit-le b = ground arith

module _ (now : Time) (q : QuotaRequest) (s : MemoryStore) where
  -- After an accepted request the key has no more active reservations than its concurrent limit.
  pub reserve-concurrent :
      (r : QuotaReservation) (s' : MemoryStore)
      → reserve_at now q s ≡ ok (r, s')
      → pos 0 <ℤ q.concurrent_limit
      → pos (active_count q.api_key_id now s') ≤ℤ q.concurrent_limit
  unfolding reserve_at
  reserve-concurrent r s' h p =
      let tokens : ℤ = clamp_zero q.estimated_tokens in
      let w : LimitWindow = add_request tokens (window_of q.api_key_id (truncate_minute now) s) in
      ground (
        arith,
        active_count-put_reservation q.api_key_id now q.request_id (new_reservation q tokens now)
            (put_window q.api_key_id (truncate_minute now) w s),
        active_count-put_window q.api_key_id q.api_key_id now (truncate_minute now) w s,
        bit-le (is_active q.api_key_id now (new_reservation q tokens now)),
      )

-- When `ReserveQuota` accepts: below the concurrent limit, and within the limits of the minute once
-- the request is counted. A limit that is not positive is no limit.
abbrev pub Admits : Time → QuotaRequest → MemoryStore → Type 0
Admits now q s =
    let w =
      add_request (clamp_zero q.estimated_tokens)
        (window_of q.api_key_id (truncate_minute now) s) in
    (pos 0 <ℤ q.concurrent_limit → pos (active_count q.api_key_id now s) <ℤ q.concurrent_limit)
    × (pos 0 <ℤ q.rpm_limit → pos w.requests ≤ℤ q.rpm_limit)
    × (pos 0 <ℤ q.tpm_limit → w.tokens ≤ℤ q.tpm_limit)

abbrev pub Accepted : Result (QuotaReservation × MemoryStore) → Type 0
Accepted (ok p) = Unit
Accepted (err e) = ⊥

module _ (now : Time) (q : QuotaRequest) (s : MemoryStore) where
  accepts : Admits now q s → Accepted (reserve_at now q s)
  unfolding reserve_at
  accepts h = ground arith

  admitted : Accepted (reserve_at now q s) → Admits now q s
  unfolding reserve_at
  admitted h = ground arith

  -- A request is accepted exactly when the key has fewer active reservations than its positive
  -- concurrent limit, and the window with the request counted is within its positive limits per
  -- minute.
  pub reserve-Admits : Accepted (reserve_at now q s) ↔ Admits now q s
  reserve-Admits = (admitted, accepts)

pub window_of-put_window :
    (k k' : String) (start start' : Time) (w : LimitWindow) (s : MemoryStore)
    → window_of k' start' (put_window k start w s)
      ≡ (if k === k' && start == start' then w else window_of k' start' s)
unfolding window_of put_window
window_of-put_window k k' start start' w s = ground (
  arith,
  lookup-insert (record { api_key_id = k; window_start = start })
      (record { api_key_id = k'; window_start = start' }) w s.limits,
)

pub window_of-put_window_self :
    (k : String) (start : Time) (w : LimitWindow) (s : MemoryStore)
    → window_of k start (put_window k start w s) ≡ w
window_of-put_window_self k start w s =
    ground (arith, window_of-put_window k k start start w s, eq_iff k k)

pub window_of-put_reservation :
    (k : String) (start : Time) (id : String) (r : QuotaReservation) (s : MemoryStore)
    → window_of k start (put_reservation id r s) ≡ window_of k start s
unfolding window_of put_reservation
window_of-put_reservation k start id r s = refl

-- The store that an accepted request leaves, and the reservation that it returns.
abbrev pub reserve_effect : Time → QuotaRequest → MemoryStore → QuotaReservation × MemoryStore
reserve_effect now q s =
    let tokens = clamp_zero q.estimated_tokens in
    let start = truncate_minute now in
    let r = new_reservation q tokens now in
    (
      r,
      put_reservation q.request_id r
          (put_window q.api_key_id start (add_request tokens (window_of q.api_key_id start s)) s),
    )

module _ (now : Time) (q : QuotaRequest) (s : MemoryStore) where
  pub reserve-effect :
      (r : QuotaReservation) (s' : MemoryStore)
      → reserve_at now q s ≡ ok (r, s')
      → (r ≡ (reserve_effect now q s).0) × (s' ≡ (reserve_effect now q s).1)
  unfolding reserve_at
  reserve-effect r s' h = ground arith

  pub window-reserve :
      (r : QuotaReservation) (s' : MemoryStore) (k : String) (start : Time)
      → reserve_at now q s ≡ ok (r, s')
      → window_of k start s' ≡ (
          if q.api_key_id === k && truncate_minute now == start
          then add_request
              (clamp_zero q.estimated_tokens)
              (window_of q.api_key_id (truncate_minute now) s)
          else window_of k start s)
  window-reserve r s' k start h =
      rw ((reserve-effect r s' h).1)
        (rw window_of-put_reservation (window_of-put_window q.api_key_id k _ start _ s))

  -- An accepted request is counted in its key's window of the minute, which stays within the
  -- positive limits per minute; every other window is left alone.
  pub reserve-window :
      (r : QuotaReservation) (s' : MemoryStore)
      → reserve_at now q s ≡ ok (r, s')
      → let w = window_of q.api_key_id (truncate_minute now) s in
        let w' = window_of q.api_key_id (truncate_minute now) s' in
        (w'.requests ≡ w.requests + 1)
        × (w'.tokens ≡ wrap64 (w.tokens +ℤ clamp_zero q.estimated_tokens))
        × (pos 0 <ℤ q.rpm_limit → pos w'.requests ≤ℤ q.rpm_limit)
        × (pos 0 <ℤ q.tpm_limit → w'.tokens ≤ℤ q.tpm_limit)
        × ((k : String) (start : Time)
            → (q.api_key_id ≢ k) ⊎ (truncate_minute now ≢ start)
            → window_of k start s' ≡ window_of k start s)
  reserve-window r s' h =
      let same : window_of q.api_key_id (truncate_minute now) s'
          ≡ add_request (clamp_zero q.estimated_tokens)
              (window_of q.api_key_id (truncate_minute now) s) =
        ground (
          arith,
          window-reserve r s' q.api_key_id (truncate_minute now) h,
          eq_iff q.api_key_id q.api_key_id,
        ) in
      let within : Admits now q s = admitted now q s (rw h tt) in
      (
        rw same,
        rw same,
        rw same within.1,
        rw same within.2,
        λ k start ne. ground (arith, window-reserve r s' k start h, eq_iff q.api_key_id k),
      )

pub clamp_zero_pos : (n : ℕ) → clamp_zero (pos n) ≡ pos n
clamp_zero_pos n = ground arith

module _ (now : Time) (q : QuotaRequest) (s : MemoryStore) where
  -- An estimate so large that the window's sum leaves the 64 bits is accepted whatever the limit of
  -- tokens per minute is, where no other limit is set: the sum wraps to a negative number.
  pub reserve-tpm_overflow :
      (t e : ℕ)
      → (window_of q.api_key_id (truncate_minute now) s).tokens ≡ pos t
      → q.estimated_tokens ≡ pos e
      → IsInt64 (pos t)
      → IsInt64 (pos e)
      → 9223372036854775808 ≤ t + e
      → q.concurrent_limit ≤ℤ pos 0
      → q.rpm_limit ≤ℤ pos 0
      → Accepted (reserve_at now q s)
  reserve-tpm_overflow t e ht he it ie over hc hr = accepts now q s (
    (λ p. absurd (omega arith)),
    (λ p. absurd (omega arith)),
    (λ p. rw (ht, he, clamp_zero_pos e) (omega (arith, wrap64_overflow t e it ie over))),
  )

module _ (now : Time) (q : QuotaRequest) (s : MemoryStore) where
  -- An accepted request under a new identifier takes a slot of its key, for six hours.
  pub reserve-active :
      (r : QuotaReservation) (s' : MemoryStore) (k : String) (t : Time)
      → reserve_at now q s ≡ ok (r, s')
      → lookup q.request_id s.reservations ≡ none
      → active_count k t s'
        ≡ active_count k t s + bit (q.api_key_id === k && ltb t (now + 6 * hour))
  unfolding is_active put_window
  reserve-active r s' k t h fresh =
      let start : Time = truncate_minute now in
      let w : LimitWindow =
        (add_request (clamp_zero q.estimated_tokens) (window_of q.api_key_id start s)) in
      rw ((reserve-effect now q s r s' h).1) (
        ground (
          arith,
          active_count-put_reservation k t q.request_id
              (new_reservation q (clamp_zero q.estimated_tokens) now)
              (put_window q.api_key_id start w s),
          active_count-put_window k q.api_key_id t start w s,
        ))
