-- ===== src/Store/Quota/Traces.antt =====
-- Any sequence of calls of `ReserveQuota` and `SettleQuota`, as the store's mutex orders them.
use aiyolo.Base.{
  ℕ, ◌≤◌, ◌<◌, String, ◌≡◌, refl, false, ◌===◌, List, [], ◌∷◌, arith, eq_iff, inl, inr, Bool-cases,
}
use aiyolo.Base.Int.{pos, ◌≤ℤ◌}
use aiyolo.Dict.{bit, string_key}
use aiyolo.Dict.Laws.{total_mono}
use aiyolo.Domain.Time.{Time, or_now, truncate_minute}
use aiyolo.Domain.Quota.{QuotaRequest, QuotaReservation}
use aiyolo.Domain.Usage.{UsageRecord}
use aiyolo.Store.State.{MemoryStore, LimitWindow, Result, ok, err}
use aiyolo.Store.Quota.{
  is_active, active_count, window_of, add_request, clamp_zero, new_reservation, put_window,
  reserve_at, reserve_quota, settle_quota,
}
use aiyolo.Store.Quota.Limits.{
  reserve-concurrent, reserve_effect, reserve-effect, active_count-put_reservation,
  active_count-put_window,
}
use aiyolo.Store.Quota.Settled.{active_count-settle_le}

pub data Call : Type 0 where
  reserve : Time → QuotaRequest → Call
  settle : Time → String → UsageRecord → Call

-- A refused request leaves the store as it was.
abbrev kept : MemoryStore → Result (QuotaReservation × MemoryStore) → MemoryStore
kept s (ok p) = p.1
kept s (err e) = s

pub step : Call → MemoryStore → MemoryStore
step (reserve clock q) s = kept s (reserve_quota clock q s)
step (settle clock id u) s = settle_quota clock id u s

unfoldable pub run : List Call → MemoryStore → MemoryStore
unfolding step
run [] s = s
run (c ∷ cs) s = run cs (step c s)

-- The time of the last request.
abbrev pub last_time : Time → List Call → Time
last_time t [] = t
last_time t (reserve clock q ∷ cs) = last_time (or_now clock q.now) cs
last_time t (settle clock id u ∷ cs) = last_time t cs

-- Time does not run back, and every request of the key brings the same concurrent limit.
abbrev pub Follows : String → ℕ → Time → List Call → Type 0
Follows key most t [] = Unit
Follows key most t (reserve clock q ∷ cs) =
    (t ≤ or_now clock q.now)
    × (q.api_key_id ≡ key → q.concurrent_limit ≡ pos most)
    × Follows key most (or_now clock q.now) cs
Follows key most t (settle clock id u ∷ cs) = Follows key most t cs

is_active_antitone :
    (key : String) (t t' : Time) (r : QuotaReservation)
    → t ≤ t'
    → bit (is_active key t' r) ≤ bit (is_active key t r)
unfolding is_active
is_active_antitone key t t' r h = ground arith

-- Reservations only grow old.
active_count_antitone :
    (key : String) (t t' : Time) (s : MemoryStore)
    → t ≤ t'
    → active_count key t' s ≤ active_count key t s
unfolding active_count
active_count_antitone key t t' s h =
    total_mono _ _ s.reservations (λ r. is_active_antitone key t t' r h)

active_count-reserve_other :
    (key : String) (now : Time) (q : QuotaRequest) (s : MemoryStore)
    → (q.api_key_id === key) ≡ false
    → active_count key now (reserve_effect now q s).1 ≤ active_count key now s
unfolding is_active
active_count-reserve_other key now q s h =
    let start : Time = truncate_minute now in
    let w : LimitWindow =
      (add_request (clamp_zero q.estimated_tokens) (window_of q.api_key_id start s)) in
    let r : QuotaReservation = new_reservation q (clamp_zero q.estimated_tokens) now in
    ground (
      arith,
      active_count-put_reservation key now q.request_id r (put_window q.api_key_id start w s),
      active_count-put_window key q.api_key_id now start w s,
    )

module _ (key : String) (most : ℕ) where
  reserve_bound :
      (now : Time) (q : QuotaRequest) (s : MemoryStore)
      → 0 < most
      → (q.api_key_id ≡ key → q.concurrent_limit ≡ pos most)
      → active_count key now s ≤ most
      → (result : Result (QuotaReservation × MemoryStore)) → reserve_at now q s ≡ result
      → active_count key now (kept s result) ≤ most
  reserve_bound now q s pos_most own h (err e) eq = h
  reserve_bound now q s pos_most own h (ok (r, s')) eq = elim (Bool-cases (q.api_key_id === key)) [
    | inl mine ↦
        let same : q.api_key_id ≡ key = (eq_iff q.api_key_id key).0 mine in
        let bound : pos (active_count q.api_key_id now s') ≤ℤ q.concurrent_limit =
          reserve-concurrent now q s r s' eq (rw (own same) (omega arith)) in
        omega (arith, rw (same, own same) at bound)
    | inr other ↦
        rw (reserve-effect now q s r s' eq).1
          (omega (arith, active_count-reserve_other key now q s other))
  ]

  -- Along every sequence of requests and settlements in which time does not run back and the
  -- key's requests bring one positive concurrent limit, the key never has more active
  -- reservations than that limit, if it did not before.
  pub run-concurrent_bound :
      (t : Time) (cs : List Call) (s : MemoryStore)
      → 0 < most
      → Follows key most t cs
      → active_count key t s ≤ most
      → active_count key (last_time t cs) (run cs s) ≤ most
  unfolding run reserve_quota
  run-concurrent_bound t [] s p f h = h
  run-concurrent_bound t (reserve clock q ∷ cs) s p f h =
      let now : Time = or_now clock q.now in
      run-concurrent_bound now cs (kept s (reserve_at now q s)) p f.2 (
        reserve_bound now q s p f.1 (omega (arith, active_count_antitone key t now s f.0))
          (reserve_at now q s) refl)
  run-concurrent_bound t (settle clock id u ∷ cs) s p f h =
      run-concurrent_bound t cs (settle_quota clock id u s) p f
        (omega (arith, active_count-settle_le key t clock u id s))
