-- ===== src/Gateway/Forward/Metadata.antt =====
-- internal/gateway/handlers.go: the metadata on the routing that a client may ask for.
use aiyolo.Base.{
  ℕ, suc, ◌+◌, ◌≤◌, ◌≡◌, refl, String, Bool, false, not, ◌&&◌, ◌||◌, ◌===◌, ◌==◌, ltb, List, [],
  ◌∷◌, is_empty, length, map, Option, none, some, arith, if◌then◌else◌, Option-cases, ◌⊎◌, inl, inr,
  ◌⊎◌, Option-cases,
}
use aiyolo.Gateway.Candidates.{RouteCandidate}
use aiyolo.Gateway.Forward.{Attempt}
use aiyolo.Gateway.Forward.Attempts.{Numbered}

-- `routerMetadataEndpoint`.
pub record MetadataEndpoint : Type 0 where
  pub provider : String
  pub model : String
  pub selected : Bool

-- The texts of `routingSummary`, by their parts.
pub data Summary : Type 0 where
  after_attempts : String → ℕ → Summary
  on_first_attempt : String → Summary
  without_success : String → Summary

-- `routerMetadata`.
pub record RouterMetadata : Type 0 where
  pub requested : String
  pub resolved_model : String
  pub strategy : String
  pub attempt : ℕ
  pub is_byok : Bool
  pub summary : Summary
  pub total : ℕ
  pub available : List MetadataEndpoint
  pub attempts : List Attempt

-- `routingStrategyName`.
pub routing_strategy_name : String → List String → ℕ → String
routing_strategy_name sort fallback_models count =
    if not (sort === "")
    then if sort === "price"
      then "cost_first"
      else if sort === "latency"
      then "latency_first"
      else if sort === "throughput"
      then "throughput_first"
      else sort
    else if not (is_empty fallback_models) || ltb 1 count
    then "fallback"
    else "direct"

-- `routingSummary`.
pub routing_summary : RouteCandidate → List Attempt → Summary
routing_summary selected [] = without_success selected.provider.id
routing_summary selected (a ∷ []) =
    if a.status === "success"
    then on_first_attempt selected.provider.id
    else without_success selected.provider.id
routing_summary selected (a ∷ b ∷ as') = after_attempts selected.provider.id (2 + length as')

abbrev or_number : ℕ → Option ℕ → ℕ
or_number n none = n
or_number n (some i) = i

abbrev later_or : Option ℕ → Attempt → Option ℕ
later_or (some i) a = some i
later_or none a = if a.status === "success" then some a.index else none

-- The loop from the last attempt to the first, for the index of the last success.
pub last_success : List Attempt → Option ℕ
last_success [] = none
last_success (a ∷ rest) = later_or (last_success rest) a

-- `metadata.Attempt`: the index of the last success, or the number of attempts.
pub reported_attempt : List Attempt → ℕ
reported_attempt attempts =
    let found = or_number (length attempts) (last_success attempts) in
    if found == 0 then length attempts else found

-- `buildRouterMetadata`.
pub build_router_metadata :
    String
    → String
    → List String
    → List RouteCandidate
    → RouteCandidate
    → List Attempt
    → RouterMetadata
build_router_metadata model sort fallback_models candidates selected attempts = record {
  requested = model;
  resolved_model = selected.route.upstream_model;
  strategy = routing_strategy_name sort fallback_models (length candidates);
  attempt = reported_attempt attempts;
  is_byok = false;
  summary = routing_summary selected attempts;
  total = length candidates;
  available =
      map
        (λ c. record {
          provider = c.provider.id;
          model = c.route.upstream_model;
          selected =
              c.provider.id === selected.provider.id
              && c.route.upstream_model === selected.route.upstream_model;
        })
        candidates;
  attempts = attempts;
}

last_success-bounds :
    (n : ℕ) (attempts : List Attempt) (i : ℕ)
    → Numbered n attempts
    → last_success attempts ≡ some i
    → (n ≤ i) × (i + 1 ≤ n + length attempts)
unfolding last_success
last_success-bounds n [] i h e = absurd (ground arith)
last_success-bounds n (a ∷ rest) i h e = elim (Option-cases (last_success rest)) [
  | inr (j, found) ↦ ground (arith, last_success-bounds (suc n) rest j h.1 found)
  | inl missing ↦ ground (arith, h.0)
]

reported_attempt-bounds :
    (attempts : List Attempt)
    → Numbered 1 attempts
    → (reported_attempt attempts ≤ length attempts)
      × ((attempts ≡ []) ⊎ (1 ≤ reported_attempt attempts))
unfolding reported_attempt last_success
reported_attempt-bounds [] h = (omega arith, inl refl)
reported_attempt-bounds (a ∷ rest) h = elim (Option-cases (last_success (a ∷ rest))) [
  | inl missing ↦ ground arith
  | inr (i, found) ↦ ground (arith, last_success-bounds 1 (a ∷ rest) i h found)
]

-- For attempts that are numbered from 1 without a gap, the metadata reports the number of one of
-- them, unless there was no attempt.
pub build_router_metadata-attempt :
    (model sort : String) (fallback_models : List String) (candidates : List RouteCandidate)
    (selected : RouteCandidate) (attempts : List Attempt)
    → Numbered 1 attempts
    → let m = build_router_metadata model sort fallback_models candidates selected attempts in
      (m.attempt ≤ length attempts) × ((attempts ≡ []) ⊎ (1 ≤ m.attempt))
unfolding build_router_metadata
build_router_metadata-attempt model sort fallback_models candidates selected attempts h =
    reported_attempt-bounds attempts h
