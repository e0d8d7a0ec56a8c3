-- ===== src/Gateway/Forward/Ledger.antt =====
-- `forwardCompatible` and the ledger: which requests give their slot back, and what usage they leave.
use aiyolo.Base.{
  ℕ, ◌+◌, ◌*◌, ◌≡◌, ◌≢◌, refl, sym, subst, true, false, if_intro, String, ◌&&◌, ◌===◌, eq_iff, ltb,
  List, ◌∷◌, Option, none, some, arith,
}
use aiyolo.Dict.{lookup, bit, string_key}
use aiyolo.Domain.Time.{Time, hour}
use aiyolo.Domain.ApiKeys.{Subject}
use aiyolo.Domain.Quota.{QuotaReservation}
use aiyolo.Domain.Usage.{UsageRecord}
use aiyolo.Store.State.{MemoryStore, Result, ok, err}
use aiyolo.Store.Quota.{active_count, reserve_at, reserve_quota, settle_quota}
use aiyolo.Store.Quota.Limits.{reserve-active}
use aiyolo.Store.Quota.Cycle.{reserve-settle}
use aiyolo.Store.Usage.{insert_usage, get_usage_by_request_id}
use aiyolo.Store.Usage.Totals.{get-insert_usage}
use aiyolo.Store.Keys.{touch_api_key}
use aiyolo.Gateway.Candidates.{RouteCandidate}
use aiyolo.Gateway.Cache.{CacheControl}
use aiyolo.Gateway.Forward.{
  Response, Exchange, Progress, LoopEnd, left, invalid_json, build_upstream_failed, try_all,
  before_loop,
}
use aiyolo.Gateway.Forward.Usage.{failed_usage, answered_usage}
use aiyolo.Gateway.Forward.Handler.{quota_request, forward_reserved, forward_to}
use aiyolo.Gateway.Forward.Finish.{
  served_of, close_ledger, answer, finish, panics, HasNullBody, null_of_panics, panics_of_null,
}
use aiyolo.Gateway.Body.Rewrite.{inject_router_metadata}
use aiyolo.Json.{nil_map, null}
use aiyolo.Gateway.Forward.Request.{
  Gateway, Request, Moments, Reply, refused, model_not_allowed, invalid_cache_ttl, cached,
  unresolved, over_quota, bad_body, not_sent, bad_gateway, relayed, panicked,
}

-- Every key has the slots that it had, at every time.
abbrev pub SameSlots : MemoryStore → MemoryStore → Type 0
SameSlots s s' = (k : String) (t : Time) → active_count k t s' ≡ active_count k t s

-- The key has one slot less to give, for six hours.
abbrev pub SlotTaken : String → Time → MemoryStore → MemoryStore → Type 0
SlotTaken key now s s' =
    (k : String) (t : Time)
    → active_count k t s' ≡ active_count k t s + bit (key === k && ltb t (now + 6 * hour))

module _ (subject : Subject) (request : Request) (at : Moments) where
  -- What a reply says of the store that the handler leaves.
  abbrev pub Accounted : MemoryStore → Reply × Gateway → Type 0
  Accounted s (over_quota e, g) = g.store ≡ s
  Accounted s (bad_gateway p, g) =
      SameSlots s g.store
      × (get_usage_by_request_id request.id g.store
          ≡ ok (failed_usage (served_of subject request at) p.selected))
  Accounted s (relayed p response, g) =
      SameSlots s g.store
      × (get_usage_by_request_id request.id g.store
          ≡ ok (answered_usage (served_of subject request at) p.selected response))
      × (request.wants_metadata ≡ true → response.whole ≢ nil_map)
  Accounted s (panicked p, g) =
      SlotTaken subject.api_key_id at.reserved s g.store
      × (request.wants_metadata ≡ true)
      × HasNullBody p.response
  Accounted s (bad_body, g) = SlotTaken subject.api_key_id at.reserved s g.store
  Accounted s (not_sent, g) = SlotTaken subject.api_key_id at.reserved s g.store
  Accounted s (refused d, g) = ⊥
  Accounted s (model_not_allowed, g) = ⊥
  Accounted s (invalid_cache_ttl, g) = ⊥
  Accounted s (cached entry, g) = ⊥
  Accounted s (unresolved e, g) = ⊥

  module _ (control : CacheControl) (g : Gateway) (primary : RouteCandidate) (r : QuotaReservation)
      (s' : MemoryStore)
      (h : reserve_at at.reserved (quota_request subject request at primary) g.store ≡ ok (r, s'))
      (named : request.id ≢ "") (fresh : lookup request.id g.store.reservations ≡ none)
      (dated : at.finished ≢ 0) where
    closed-slots : (u : UsageRecord) → SameSlots g.store (close_ledger at r u s')
    unfolding insert_usage active_count
    closed-slots u =
        (reserve-settle at.reserved (quota_request subject request at primary) g.store r s'
          at.settled u h named fresh).0

    closed-usage :
        (u : UsageRecord)
        → u.request_id ≡ request.id
        → u.created_at ≡ at.finished
        → get_usage_by_request_id request.id (close_ledger at r u s') ≡ ok u
    closed-usage u same when =
        rw (get-insert_usage at.settled u request.id (settle_quota at.settled r.id u s'))
          (ground (arith, eq_iff u.request_id request.id))

    taken : SlotTaken subject.api_key_id at.reserved g.store s'
    taken k t =
        reserve-active at.reserved (quota_request subject request at primary) g.store r s' k t h
          fresh

    answer-Accounted :
        (p : Progress) (o : Option Response)
        → p.response ≡ o
        → Accounted g.store (answer subject request at control r (record g { store = s' }) p o)
    unfolding failed_usage answered_usage touch_api_key get_usage_by_request_id active_count
    answer-Accounted p none same = (
      closed-slots (failed_usage (served_of subject request at) p.selected),
      closed-usage (failed_usage (served_of subject request at) p.selected) refl refl,
    )
    answer-Accounted p (some response) same =
        let injected = inject_router_metadata false response.whole null in
        if_intro (Accounted g.store) (request.wants_metadata && panics injected)
          (λ null_sent. (
            taken,
            ground (arith, null_sent),
            subst HasNullBody (sym same)
                (null_of_panics response.whole (ground (arith, null_sent))),
          ))
          λ plain. (
            closed-slots (answered_usage (served_of subject request at) p.selected response),
            closed-usage (answered_usage (served_of subject request at) p.selected response) refl
                refl,
            λ wanted e. ground (arith, plain, wanted, panics_of_null response.whole e),
          )

    finish-Accounted :
        (e : LoopEnd)
        → Accounted g.store (finish subject request at control r (record g { store = s' }) e)
    unfolding finish
    finish-Accounted invalid_json = taken
    finish-Accounted build_upstream_failed = taken
    finish-Accounted (left p) = answer-Accounted p p.response refl

  forward_reserved-Accounted :
      (exchange : ℕ → RouteCandidate → Exchange) (control : CacheControl) (g : Gateway)
      (primary : RouteCandidate) (others : List RouteCandidate)
      (q : Result (QuotaReservation × MemoryStore))
      → reserve_at at.reserved (quota_request subject request at primary) g.store ≡ q
      → request.id ≢ ""
      → lookup request.id g.store.reservations ≡ none
      → at.finished ≢ 0
      → Accounted g.store (forward_reserved exchange subject request at control g primary others q)
  forward_reserved-Accounted exchange control g primary others (err e) h named fresh dated = refl
  forward_reserved-Accounted exchange control g primary others (ok (r, s')) h named fresh dated =
      finish-Accounted control g primary r s' h named fresh dated
        (try_all request.endpoint exchange 1 (primary ∷ others) (before_loop primary))

  reserve_quota-now :
      (primary : RouteCandidate) (s : MemoryStore)
      → reserve_quota at.reserved (quota_request subject request at primary) s
        ≡ reserve_at at.reserved (quota_request subject request at primary) s
  unfolding reserve_quota
  reserve_quota-now primary s = ground arith

  -- A request with a new identifier, handled at a time that is not Go's zero, that is answered, by an
  -- upstream or with a bad gateway, holds no slot any more and leaves the usage record of the candidate
  -- that was selected last; over its quota it changes nothing. When a candidate's request can be neither
  -- rewritten nor built, the handler returns without settling, and where the client asks for metadata and
  -- the body to write it into is `null`, it panics before it settles: the slot then stays taken for six
  -- hours.
  pub forward_to-Accounted :
      (exchange : ℕ → RouteCandidate → Exchange) (control : CacheControl) (g : Gateway)
      (primary : RouteCandidate) (others : List RouteCandidate)
      → request.id ≢ ""
      → lookup request.id g.store.reservations ≡ none
      → at.finished ≢ 0
      → Accounted g.store (forward_to exchange subject request at control g primary others)
  unfolding forward_to
  forward_to-Accounted exchange control g primary others named fresh dated =
      rw (reserve_quota-now primary g.store) (
        forward_reserved-Accounted exchange control g primary others
          (reserve_at at.reserved (quota_request subject request at primary) g.store) refl named
          fresh dated)
