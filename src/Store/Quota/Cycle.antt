-- ===== src/Store/Quota/Cycle.antt =====
-- A request from its reservation to its settlement: what the two operations do together.
use aiyolo.Base.{ℕ, ◌+◌, String, ◌≡◌, ◌≢◌, refl, none, some, arith}
use aiyolo.Base.Int.{pos, ◌+ℤ◌, IsInt64}
use aiyolo.Dict.{lookup, string_key}
use aiyolo.Dict.Laws.{lookup-insert_self}
use aiyolo.Domain.Time.{Time, truncate_minute}
use aiyolo.Domain.Quota.{QuotaRequest, QuotaReservation}
use aiyolo.Domain.Usage.{UsageRecord}
use aiyolo.Store.State.{MemoryStore, LimitWindow, ok}
use aiyolo.Store.Quota.{
  add_request, active_count, window_of, clamp_zero, new_reservation, put_window, put_reservation,
  reserve_at, actual_usage_tokens, correct_window, settled_reservation, settle_quota,
}
use aiyolo.Store.Quota.Limits.{
  active_count-put_reservation, active_count-put_window, window_of-put_window_self,
  window_of-put_reservation, reserve_effect, reserve-effect,
}
use aiyolo.Store.Quota.Settled.{
  Open, active_count-settle_stored, corrected_tokens, lookup-settle_stored, settle_of_Open,
  window-settle_stored,
}

module _ (now : Time) (q : QuotaRequest) (s : MemoryStore) where
  effect-Open :
      q.request_id ≢ "" → Open q.request_id (reserve_effect now q s).1 (reserve_effect now q s).0
  unfolding put_reservation put_window
  effect-Open named = (named, lookup-insert_self q.request_id _ s.reservations, refl)

  effect-active :
      (clock : Time) (u : UsageRecord) (k : String) (t : Time)
      → q.request_id ≢ ""
      → lookup q.request_id s.reservations ≡ none
      → active_count k t (settle_quota clock q.request_id u (reserve_effect now q s).1)
        ≡ active_count k t s
  unfolding put_window
  effect-active clock u k t named fresh =
      let start : Time = truncate_minute now in
      let w : LimitWindow =
        (add_request (clamp_zero q.estimated_tokens) (window_of q.api_key_id start s)) in
      let r : QuotaReservation = new_reservation q (clamp_zero q.estimated_tokens) now in
      rw
        (settle_of_Open clock u q.request_id (reserve_effect now q s).1 (reserve_effect now q s).0
          (effect-Open named))
        (ground (
          arith,
          active_count-settle_stored clock u k t q.request_id (reserve_effect now q s).0
              (reserve_effect now q s).1 (effect-Open named).1,
          active_count-put_reservation k t q.request_id r (put_window q.api_key_id start w s),
          active_count-put_window k q.api_key_id t start w s,
        ))

  effect-window :
      window_of q.api_key_id (truncate_minute now) (reserve_effect now q s).1
      ≡ add_request (clamp_zero q.estimated_tokens) (window_of q.api_key_id (truncate_minute now) s)
  effect-window = rw window_of-put_reservation (window_of-put_window_self q.api_key_id _ _ s)

  effect-settled :
      (clock : Time) (u : UsageRecord)
      → q.request_id ≢ ""
      → window_of q.api_key_id
          (truncate_minute now)
          (settle_quota clock q.request_id u (reserve_effect now q s).1)
        ≡ correct_window (actual_usage_tokens u) (clamp_zero q.estimated_tokens) (
            add_request
              (clamp_zero q.estimated_tokens)
              (window_of q.api_key_id (truncate_minute now) s))
  effect-settled clock u named =
      rw
        (
          settle_of_Open clock u q.request_id (reserve_effect now q s).1 (reserve_effect now q s).0
              (effect-Open named),
          window-settle_stored clock u q.request_id (reserve_effect now q s).0
              (reserve_effect now q s).1,
        )
        (rw effect-window)

  -- A request that is accepted under a new identifier and then settled takes no slot any more: the
  -- active count of every key at every time is what it was, its reservation is closed with the
  -- actual usage, and its window has counted one request.
  pub reserve-settle :
      (r : QuotaReservation) (s' : MemoryStore) (clock : Time) (u : UsageRecord)
      → reserve_at now q s ≡ ok (r, s')
      → q.request_id ≢ ""
      → lookup q.request_id s.reservations ≡ none
      → let s'' = settle_quota clock r.id u s' in
        let start = truncate_minute now in
        ((k : String) (t : Time) → active_count k t s'' ≡ active_count k t s)
        × (lookup q.request_id s''.reservations ≡ some (settled_reservation clock u r))
        × ((window_of q.api_key_id start s'').requests
            ≡ (window_of q.api_key_id start s).requests + 1)
  reserve-settle r s' clock u h named fresh =
      let e : (r ≡ (reserve_effect now q s).0) × (s' ≡ (reserve_effect now q s).1) =
        reserve-effect now q s r s' h in
      rw (e.0, e.1)
        (
          (λ k t. effect-active clock u k t named fresh),
          rw
              (settle_of_Open clock u q.request_id (reserve_effect now q s).1
                (reserve_effect now q s).0 (effect-Open named))
              (lookup-settle_stored clock u q.request_id _ _),
          rw (effect-settled clock u named),
        )

  -- As long as the sums stay within 64 bits, the window then has exactly the actual tokens more than
  -- before, whatever the estimate was.
  pub reserve-settle_tokens :
      (r : QuotaReservation) (s' : MemoryStore) (clock : Time) (u : UsageRecord) (t a : ℕ)
      → reserve_at now q s ≡ ok (r, s')
      → q.request_id ≢ ""
      → let start = truncate_minute now in
        (window_of q.api_key_id start s).tokens ≡ pos t
        → actual_usage_tokens u ≡ pos a
        → IsInt64 (pos t +ℤ clamp_zero q.estimated_tokens)
        → IsInt64 (pos (t + a))
        → (window_of q.api_key_id start (settle_quota clock r.id u s')).tokens ≡ pos (t + a)
  reserve-settle_tokens r s' clock u t a h named ht ha i j =
      let e : (r ≡ (reserve_effect now q s).0) × (s' ≡ (reserve_effect now q s).1) =
        reserve-effect now q s r s' h in
      rw (e.0, e.1)
        (rw (effect-settled clock u named)
          (rw (ht, ha) (corrected_tokens t a q.estimated_tokens i j)))
