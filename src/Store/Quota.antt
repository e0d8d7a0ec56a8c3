-- ===== src/Store/Quota.antt =====
-- internal/storage/memory.go `ReserveQuota` and `SettleQuota`, internal/storage/quota.go.
pub mod Limits
pub mod Admission
pub mod Settled
pub mod Cycle
pub mod Traces
mod Examples
use aiyolo.Base.{
  ℕ, ◌+◌, ◌*◌, String, ◌≡◌, Bool, true, false, ◌&&◌, ◌===◌, ltb, List, [], ◌∷◌, Option, none, some,
  if◌then◌else◌,
}
use aiyolo.Base.Int.{ℤ, pos, ◌+ℤ◌, ◌-ℤ◌, wrap64, ltb_ℤ, leb_ℤ}
use aiyolo.Dict.{lookup, insert, total, bit, string_key}
use aiyolo.Domain.Time.{Time, or_now, hour, truncate_minute}
use aiyolo.Domain.Quota.{QuotaRequest, QuotaReservation}
use aiyolo.Domain.Usage.{UsageRecord}
use aiyolo.Store.State.{
  MemoryStore, LimitWindow, WindowKey, Limit, concurrent, rpm, tpm, StoreError, quota_exceeded,
  Result, ok, err, ◌>>=◌, ◌>>◌, fail_if, window_key,
}

abbrev pub reserved : String
reserved = "reserved"

abbrev pub settled : String
settled = "settled"

abbrev pub failed : String
failed = "failed"

-- `reservation.CreatedAt.After(now.Add(-6*time.Hour))`, with the six hours on the other side.
pub is_active : String → Time → QuotaReservation → Bool
is_active key now r =
    r.api_key_id === key && r.status === reserved && ltb now (r.created_at + 6 * hour)

-- The `active` of `ReserveQuota`.
unfoldable pub active_count : String → Time → MemoryStore → ℕ
active_count key now s = total (λ r. bit (is_active key now r)) s.reservations

abbrev pub empty_window : LimitWindow
empty_window = record { requests = 0; tokens = pos 0 }

abbrev pub or_empty : Option LimitWindow → LimitWindow
or_empty none = empty_window
or_empty (some w) = w

-- `store.limits[windowKey]`, which is the zero window where the key is missing.
pub window_of : String → Time → MemoryStore → LimitWindow
window_of key start s =
    or_empty (lookup (record { api_key_id = key; window_start = start }) s.limits)

-- `window.Requests++; window.Tokens += tokens`
abbrev pub add_request : ℤ → LimitWindow → LimitWindow
add_request tokens w = record { requests = w.requests + 1; tokens = wrap64 (w.tokens +ℤ tokens) }

abbrev pub clamp_zero : ℤ → ℤ
clamp_zero n = if ltb_ℤ n (pos 0) then pos 0 else n

-- `limit > 0 && value > limit`
abbrev pub exceeds : ℤ → ℤ → Bool
exceeds limit value = ltb_ℤ (pos 0) limit && ltb_ℤ limit value

abbrev pub new_reservation : QuotaRequest → ℤ → Time → QuotaReservation
new_reservation q tokens now = record {
  id = q.request_id;
  request_id = q.request_id;
  api_key_id = q.api_key_id;
  user_id = q.user_id;
  model_alias = q.model_alias;
  window_start = truncate_minute now;
  estimated_tokens = tokens;
  estimated_cost_micro_cents = q.estimated_cost_micro_cents;
  actual_tokens = pos 0;
  actual_cost_micro_cents = pos 0;
  status = reserved;
  created_at = now;
  settled_at = none;
}

pub put_window : String → Time → LimitWindow → MemoryStore → MemoryStore
put_window key start w s = record s {
  limits = insert (record { api_key_id = key; window_start = start }) w s.limits;
}

pub put_reservation : String → QuotaReservation → MemoryStore → MemoryStore
put_reservation id r s = record s { reservations = insert id r s.reservations }

-- `ReserveQuota`, at the request's time.
pub reserve_at : Time → QuotaRequest → MemoryStore → Result (QuotaReservation × MemoryStore)
reserve_at now q s = do
  let tokens = clamp_zero q.estimated_tokens
  fail_if
      (ltb_ℤ (pos 0) q.concurrent_limit
        && leb_ℤ q.concurrent_limit (pos (active_count q.api_key_id now s)))
      (quota_exceeded concurrent)
  let window = add_request tokens (window_of q.api_key_id (truncate_minute now) s)
  fail_if (exceeds q.rpm_limit (pos window.requests)) (quota_exceeded rpm)
  fail_if (exceeds q.tpm_limit window.tokens) (quota_exceeded tpm)
  let r = new_reservation q tokens now
  ok (r, put_reservation q.request_id r (put_window q.api_key_id (truncate_minute now) window s))

unfoldable pub reserve_quota :
    Time → QuotaRequest → MemoryStore → Result (QuotaReservation × MemoryStore)
reserve_quota clock q s = reserve_at (or_now clock q.now) q s

-- `actualUsageTokens`.
unfoldable pub actual_usage_tokens : UsageRecord → ℤ
actual_usage_tokens u =
    if ltb_ℤ (pos 0) u.total_tokens
    then u.total_tokens
    else wrap64
        (u.input_tokens +ℤ u.output_tokens +ℤ u.cache_creation_tokens +ℤ u.cache_read_tokens)

-- `window.Tokens += actualTokens - stored.EstimatedTokens`, and not below 0.
abbrev pub correct_window : ℤ → ℤ → LimitWindow → LimitWindow
correct_window actual estimated w = record w {
  tokens = clamp_zero (wrap64 (w.tokens +ℤ wrap64 (actual -ℤ estimated)));
}

abbrev pub settled_reservation : Time → UsageRecord → QuotaReservation → QuotaReservation
settled_reservation clock u r = record r {
  actual_tokens = actual_usage_tokens u;
  actual_cost_micro_cents = u.cost_micro_cents;
  status = if leb_ℤ (pos 400) u.status_code then failed else settled;
  settled_at = some clock;
}

-- The part of `SettleQuota` behind its guards.
pub settle_stored : Time → String → UsageRecord → QuotaReservation → MemoryStore → MemoryStore
settle_stored clock id u stored s =
    let window =
      correct_window (actual_usage_tokens u) stored.estimated_tokens
        (window_of stored.api_key_id stored.window_start s) in
    put_reservation id (settled_reservation clock u stored)
      (put_window stored.api_key_id stored.window_start window s)

-- `SettleQuota`. It reads only the identifier of the reservation that it is given.
pub settle_quota : Time → String → UsageRecord → MemoryStore → MemoryStore
settle_quota clock id u s = if id === "" then s else elim (lookup id s.reservations) [
  | none ↦ s
  | some stored ↦ if stored.status === reserved then settle_stored clock id u stored s else s
]
