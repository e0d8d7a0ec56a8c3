-- ===== src/Store/Quota/Examples.antt =====
-- `ReserveQuota` and `SettleQuota` on one key and one request.
use aiyolo.Base.{◌+◌, ◌≤◌, String, ◌≡◌, ◌≢◌, refl, List, [], ◌∷◌, none, some, arith, ◌↔◌, eq_iff}
use aiyolo.Base.Int.{pos, ◌+ℤ◌, wrap64}
use aiyolo.Dict.{lookup, insert, total, string_key}
use aiyolo.Domain.Time.{Time, truncate_minute}
use aiyolo.Domain.Quota.{QuotaRequest, QuotaReservation}
use aiyolo.Store.State.{MemoryStore, ok, window_key}
use aiyolo.Store.Quota.{
  active_count, is_active, window_of, reserve_at, settle_quota, settled_reservation,
  actual_usage_tokens, put_window, put_reservation, reserve_quota, settle_stored,
}
use aiyolo.Store.Quota.Admission.{HasRoom, reserve-HasRoom}
use aiyolo.Store.Quota.Limits.{reserve_effect, Accepted, reserve-tpm_overflow}
use aiyolo.Store.Quota.Cycle.{reserve-settle}
use aiyolo.Store.Quota.Traces.{Call, reserve, settle, run, run-concurrent_bound}
use aiyolo.Fixtures.{noon, quota_1, usage_1, store_1}

-- The reservation of the request, and the store that it leaves.
abbrev reservation_1 : QuotaReservation
reservation_1 = (reserve_effect noon quota_1 store_1).0

abbrev store_2 : MemoryStore
store_2 = (reserve_effect noon quota_1 store_1).1

accepted_1 : reserve_at noon quota_1 store_1 ≡ ok (reservation_1, store_2)
unfolding reserve_at active_count is_active total window_of put_window put_reservation insert lookup
    wrap64 ◌+ℤ◌
accepted_1 = refl

named_1 : quota_1.request_id ≢ ""
named_1 e = absurd (ground (arith, eq_iff quota_1.request_id ""))

unused_1 : lookup "req_1" store_1.reservations ≡ none
unfolding lookup
unused_1 = refl

abbrev calls_1 : List Call
calls_1 =
    reserve noon quota_1
    ∷ reserve noon (record quota_1 { request_id = "req_2" })
    ∷ reserve noon (record quota_1 { request_id = "req_3" })
    ∷ settle noon "req_1" usage_1
    ∷ []

no_active_1 : active_count "key_1" noon store_1 ≤ 2
unfolding active_count total
no_active_1 = omega arith

run-concurrent_bound_example : active_count "key_1" noon (run calls_1 store_1) ≤ 2
run-concurrent_bound_example =
    run-concurrent_bound "key_1" 2 noon calls_1 store_1 (omega arith)
      (omega arith, (λ e. refl), (omega arith, (λ e. refl), (omega arith, (λ e. refl), tt)))
      no_active_1

-- The third request finds both slots taken, and one of them is given back.
run_1 : active_count "key_1" noon (run calls_1 store_1) ≡ 1
unfolding run reserve_at active_count is_active total window_of put_window put_reservation insert
    lookup settle_quota reserve_quota wrap64 ◌+ℤ◌ settle_stored
run_1 = refl

reserve-settle_example :
    ((k : String) (t : Time)
      → active_count k t (settle_quota noon "req_1" usage_1 store_2) ≡ active_count k t store_1)
    × (lookup "req_1" (settle_quota noon "req_1" usage_1 store_2).reservations
        ≡ some (settled_reservation noon usage_1 reservation_1))
    × ((window_of "key_1"
          (truncate_minute noon)
          (settle_quota noon "req_1" usage_1 store_2)).requests
        ≡ (window_of "key_1" (truncate_minute noon) store_1).requests + 1)
reserve-settle_example =
    reserve-settle noon quota_1 store_1 reservation_1 store_2 noon usage_1 accepted_1 named_1
      unused_1

reserve-HasRoom_example : Accepted (reserve_at noon quota_1 store_1) ↔ HasRoom noon quota_1 store_1
reserve-HasRoom_example = reserve-HasRoom noon quota_1 store_1

window_1 : (window_of "key_1" (truncate_minute noon) store_1).tokens ≡ pos 0
unfolding window_of lookup
window_1 = refl

tokens_1 : actual_usage_tokens usage_1 ≡ pos 40
unfolding actual_usage_tokens ◌+ℤ◌ wrap64
tokens_1 = refl

abbrev huge_quota : QuotaRequest
huge_quota = record quota_1 {
  estimated_tokens = pos 9223372036854775807;
  rpm_limit = pos 0;
  concurrent_limit = pos 0;
}

abbrev busy_store : MemoryStore
busy_store = record store_2 { reservations = [] }

busy_window : (window_of "key_1" (truncate_minute noon) busy_store).tokens ≡ pos 100
unfolding window_of put_window put_reservation lookup insert wrap64 ◌+ℤ◌
busy_window = refl

reserve-tpm_overflow_example : Accepted (reserve_at noon huge_quota busy_store)
reserve-tpm_overflow_example =
    reserve-tpm_overflow noon huge_quota busy_store 100 9223372036854775807 busy_window refl
      (omega arith) (omega arith) (omega arith) (omega arith) (omega arith)
