-- ===== src/Store/Usage/Totals.antt =====
-- What the reads of the usage ledger return after writes, and against a description by filters.
use aiyolo.Base.{
  ◌-◌, ◌*◌, ◌≡◌, refl, String, Bool, not, ◌&&◌, ◌===◌, List, [], ◌∷◌, ◌++◌, filter, arith,
  if◌then◌else◌, Bool-cases, inl, inr,
}
use aiyolo.Domain.Time.{Time, or_now, before, hour}
use aiyolo.Domain.Usage.{UsageRecord, UsageTotals, ApiKeyUsageSummary}
use aiyolo.Store.State.{MemoryStore, ok}
use aiyolo.Store.Usage.{
  insert_usage, reverse, first_with_request_id, get_usage_by_request_id, add_usage_totals,
  add_since, zero_summary, summarize_one, summarize_from, summarize_api_key_usage,
}

reverse-snoc : (us : List UsageRecord) (u : UsageRecord) → reverse (us ++ u ∷ []) ≡ u ∷ reverse us
unfolding reverse
reverse-snoc [] u = refl
reverse-snoc (v ∷ us) u = rw (reverse-snoc us u) refl

-- After a record is inserted, its request's usage is that record, dated by the clock where it had no
-- date, even where the request had usage before; the usage of any other request is what it was.
pub get-insert_usage :
    (clock : Time) (u : UsageRecord) (id : String) (s : MemoryStore)
    → get_usage_by_request_id id (insert_usage clock u s) ≡ (
        if u.request_id === id
        then ok (record u { created_at = or_now clock u.created_at })
        else get_usage_by_request_id id s)
unfolding get_usage_by_request_id insert_usage first_with_request_id
get-insert_usage clock u id s =
    rw (reverse-snoc s.usage (record u { created_at = or_now clock u.created_at })) (ground arith)

-- The totals of some records.
abbrev pub totals_from : UsageTotals → List UsageRecord → UsageTotals
totals_from t [] = t
totals_from t (u ∷ us) = totals_from (add_usage_totals t u) us

-- The records of a key, and those of them that are not older than a time.
abbrev pub of_key : String → UsageRecord → Bool
of_key id u = u.api_key_id === id

abbrev pub of_key_since : String → Time → UsageRecord → Bool
of_key_since id start u = u.api_key_id === id && not (before u.created_at start)

abbrev pub summary_of : Time → String → ApiKeyUsageSummary → List UsageRecord → ApiKeyUsageSummary
summary_of now id sum us = record {
  all_time = totals_from sum.all_time (filter (of_key id) us);
  daily = totals_from sum.daily (filter (of_key_since id (now - 24 * hour)) us);
  weekly = totals_from sum.weekly (filter (of_key_since id (now - 7 * (24 * hour))) us);
  monthly = totals_from sum.monthly (filter (of_key_since id (now - 30 * (24 * hour))) us);
}

module _ (id : String) (start : Time) where
  totals_from-cons :
      (t : UsageTotals) (u : UsageRecord) (us : List UsageRecord)
      → totals_from t (filter (of_key_since id start) (u ∷ us))
        ≡ totals_from
            (if u.api_key_id === id then add_since start t u else t)
            (filter (of_key_since id start) us)
  unfolding filter
  totals_from-cons t u us = ground arith

summarize_from_lem :
    (now : Time) (id : String) (sum : ApiKeyUsageSummary) (us : List UsageRecord)
    → summarize_from now id sum us ≡ summary_of now id sum us
unfolding summarize_from summarize_one filter
summarize_from_lem now id sum [] = refl
summarize_from_lem now id sum (u ∷ us) =
    rw
      (
        summarize_from_lem now id (summarize_one now id sum u) us,
        totals_from-cons id (now - 24 * hour) sum.daily u us,
        totals_from-cons id (now - 7 * (24 * hour)) sum.weekly u us,
        totals_from-cons id (now - 30 * (24 * hour)) sum.monthly u us,
      )
      (elim (Bool-cases (u.api_key_id === id)) [
        | inr other ↦ rw other refl
        | inl mine ↦ rw mine refl
      ])

-- The summary of a key's usage has, for each period, the totals of exactly the key's records of that
-- period: a record belongs to a period when it is not older than the period's start.
pub summarize_api_key_usage_lem :
    (clock : Time) (id : String) (s : MemoryStore)
    → summarize_api_key_usage clock id s ≡ summary_of clock id zero_summary s.usage
unfolding summarize_api_key_usage
summarize_api_key_usage_lem clock id s = summarize_from_lem clock id zero_summary s.usage
