-- ===== src/Gateway/Candidates/Chosen.antt =====
-- Which candidates are tried, and in what order: the filters and the sort of `resolveCandidates`.
use mathlib.Core.List.{Perm}
use aiyolo.Base.{
  ◌≡◌, refl, subst, String, Bool, true, false, arith, not, ◌&&◌, ◌||◌, List, [], filter,
  filter_when, filter_then, is_empty, if◌then◌else◌,
}
use aiyolo.Sort.Laws.{sort_stable-perm, sort_stable-IsSorted}
use aiyolo.Gateway.Candidates.{
  RouteCandidate, ProviderPreferences, in_set, candidate_supports_parameters,
  candidate_matches_price_limits, provider_order_from, candidate_less, sort_candidates,
  filter_preferred,
}
use aiyolo.Sort.{sort_stable}
use aiyolo.Gateway.Candidates.Ordered.{candidate_less-IsStrictWeak}
use aiyolo.Gateway.Candidates.Precedence.{InOrder, sorted-InOrder}

-- What the preferences that are set demand of a candidate.
abbrev pub preferred : ProviderPreferences → List String → RouteCandidate → Bool
preferred prefs required c =
    (((not (not (is_empty prefs.only)) || in_set prefs.only c.provider.id)
        && (not (not (is_empty prefs.ignore)) || not (in_set prefs.ignore c.provider.id)))
      && (not prefs.require_parameters || candidate_supports_parameters c required))
    && (not prefs.has_max_price || candidate_matches_price_limits c prefs.max_price)

-- The four filters keep exactly the candidates that satisfy every preference that is set, in their
-- order.
pub filter_preferred_lem :
    (cs : List RouteCandidate) (prefs : ProviderPreferences) (required : List String)
    → filter_preferred cs prefs required ≡ filter (preferred prefs required) cs
unfolding filter_preferred
filter_preferred_lem cs prefs required =
    rw
      (
        filter_when (not (is_empty prefs.only)) only cs,
        filter_then (not (is_empty prefs.ignore)) (λ c. not (in_set prefs.ignore c.provider.id))
            only_set cs,
        filter_then prefs.require_parameters (λ c. candidate_supports_parameters c required)
            ignore_set cs,
        filter_then prefs.has_max_price (λ c. candidate_matches_price_limits c prefs.max_price)
            required_set cs,
      )
      refl
  where
    only : RouteCandidate → Bool
    only c = in_set prefs.only c.provider.id

    only_set : RouteCandidate → Bool
    only_set c = not (not (is_empty prefs.only)) || only c

    ignore_set : RouteCandidate → Bool
    ignore_set c =
        only_set c && (not (not (is_empty prefs.ignore)) || not (in_set prefs.ignore c.provider.id))

    required_set : RouteCandidate → Bool
    required_set c =
        ignore_set c && (not prefs.require_parameters || candidate_supports_parameters c required)

-- The providers' order is a restriction where fallbacks are switched off.
abbrev pub admitted : ProviderPreferences → List RouteCandidate → List RouteCandidate
admitted prefs cs =
    if not (is_empty prefs.order)
      && not (if prefs.has_allow_fallbacks then prefs.allow_fallbacks else true)
    then filter (λ c. in_set prefs.order c.provider.id) cs
    else cs

-- Only the providers of the order may be tried.
abbrev pub IsRestricted : ProviderPreferences → Type 0
IsRestricted prefs =
    (is_empty prefs.order ≡ false)
    × (prefs.has_allow_fallbacks ≡ true)
    × (prefs.allow_fallbacks ≡ false)

restricted-admitted :
    (prefs : ProviderPreferences) (cs : List RouteCandidate)
    → IsRestricted prefs
    → admitted prefs cs ≡ filter (λ c. in_set prefs.order c.provider.id) cs
restricted-admitted prefs cs h = ground (arith, h)

free-admitted :
    (prefs : ProviderPreferences) (cs : List RouteCandidate)
    → (IsRestricted prefs → ⊥)
    → admitted prefs cs ≡ cs
free-admitted prefs cs h = ground (arith, h)

-- The candidates are tried once each, those of the ordered providers where no other may follow and else
-- all; and each of them may stand before those behind it: by the rank of its provider in the order, then
-- by the price, the priority or the weight that the preferences sort by, then by the place of its model
-- in the request, the priority, the weight, and the texts of the provider and of the public name.
pub sort_candidates_lem :
    (cs : List RouteCandidate) (prefs : ProviderPreferences)
    → (IsRestricted prefs
        → Perm (sort_candidates cs prefs) (filter (λ c. in_set prefs.order c.provider.id) cs))
      × ((IsRestricted prefs → ⊥) → Perm (sort_candidates cs prefs) cs)
      × InOrder (provider_order_from 0 prefs.order []) prefs.sort (sort_candidates cs prefs)
unfolding sort_candidates
sort_candidates_lem cs prefs =
    let less = candidate_less (provider_order_from 0 prefs.order []) prefs.sort in
    let perm = sort_stable-perm less (admitted prefs cs) in
    (
      λ h.
          subst (Perm (sort_stable less (admitted prefs cs))) (restricted-admitted prefs cs h) perm,
      λ h. subst (Perm (sort_stable less (admitted prefs cs))) (free-admitted prefs cs h) perm,
      sorted-InOrder (provider_order_from 0 prefs.order []) prefs.sort _ (
          sort_stable-IsSorted _
            (candidate_less-IsStrictWeak (provider_order_from 0 prefs.order []) prefs.sort)
            (admitted prefs cs)),
    )
