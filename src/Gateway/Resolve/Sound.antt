-- ===== src/Gateway/Resolve/Sound.antt =====
-- What is true of every candidate that is tried.
use aiyolo.Base.{
  ℕ, suc, ◌≡◌, ◌⊎◌, refl, String, true, false, List, [], ◌∷◌, All, All-filter, All-filter-true,
  filter, filter_when, not, ◌&&◌, if◌then◌else◌, is_empty, arith, eq_iff, Bool-cases, inl, inr,
}
use aiyolo.Domain.Routes.{Provider, ModelRoute, ProxyProfile}
use aiyolo.Sort.Laws.{All-sort_stable}
use aiyolo.Store.State.{MemoryStore, ok, Result-cases}
use aiyolo.Store.Routes.{enabled, get_model_route, get_provider}
use aiyolo.Gateway.Candidates.{
  RouteCandidate, ProviderPreferences, in_set, sort_candidates, candidate_less, provider_order_from,
}
use aiyolo.Gateway.Resolve.Preferences.{Passes, in_order, preferred-Passes}
use aiyolo.Domain.Protocols.{
  supports_protocol, provider_supported_protocols, route_allowed_protocols,
}
use aiyolo.Gateway.Candidates.Chosen.{preferred, filter_preferred_lem, admitted}
use aiyolo.Gateway.Resolve.{
  RouteError, RequestError, Outcome, Outcome-cases, success, failure, resolve_route, route_through,
  resolve_candidate, candidate_speaks, fallback_candidates, named_candidates, some_candidates,
  add_fallback, start_with, sort_some, choose_from, resolve_candidates,
}

-- A route under a name and its provider, both in use.
abbrev pub Routed : MemoryStore → String → ModelRoute → Provider → Type 0
Routed s alias route provider =
    (get_model_route alias s ≡ ok route)
    × (get_provider route.provider_id s ≡ ok provider)
    × ((provider.status ≡ "") ⊎ (provider.status ≡ enabled))

route_through-success :
    (r route : ModelRoute) (p provider : Provider) (s : MemoryStore) (profile : ProxyProfile)
    → route_through r p s ≡ success (route, provider, profile)
    → (r ≡ route) × (p ≡ provider) × ((provider.status ≡ "") ⊎ (provider.status ≡ enabled))
unfolding route_through
route_through-success r route p provider s profile h =
    ground (arith, eq_iff p.status "", eq_iff p.status enabled)

resolve_route-Routed :
    (alias : String) (s : MemoryStore) (route : ModelRoute) (provider : Provider)
    (profile : ProxyProfile)
    → resolve_route alias s ≡ success (route, provider, profile)
    → Routed s alias route provider
unfolding resolve_route
resolve_route-Routed alias s route provider profile h =
    elim (Result-cases (get_model_route alias s)) [
      | inr (e, missing) ↦ absurd (cc)
      | inl (r, found) ↦ elim (Result-cases (get_provider r.provider_id s)) [
        | inr (e, missing) ↦ absurd (cc)
        | inl (p, known) ↦ ground (arith, route_through-success r route p provider s profile)
      ]
    ]

-- A candidate that a request may be sent to.
abbrev pub Served : MemoryStore → String → RouteCandidate → Type 0
Served s protocol c =
    (alias : String) × Routed s alias c.route c.provider
    × (supports_protocol (provider_supported_protocols c.provider) protocol ≡ true)
    × (supports_protocol (route_allowed_protocols c.route c.provider) protocol ≡ true)

speaks-Served :
    (s : MemoryStore) (protocol alias : String) (c : RouteCandidate)
    → Routed s alias c.route c.provider
    → candidate_speaks protocol c ≡ true
    → Served s protocol c
unfolding candidate_speaks
speaks-Served s protocol alias c routed speaks =
    (alias, routed, ground (arith, speaks), ground (arith, speaks))

resolve_candidate-Routed :
    (index : ℕ) (alias : String) (s : MemoryStore) (c : RouteCandidate)
    → resolve_candidate index alias s ≡ success c
    → Routed s alias c.route c.provider
unfolding resolve_candidate
resolve_candidate-Routed index alias s c h = elim (Outcome-cases (resolve_route alias s)) [
  | inr (e, lost) ↦ absurd (cc)
  | inl ((route, provider, profile), found) ↦
      ground (arith, resolve_route-Routed alias s route provider profile found)
]

add_fallback-Served :
    (protocol : String) (index : ℕ) (alias : String) (s : MemoryStore)
    (o : Outcome RouteError RouteCandidate) (rest : List RouteCandidate)
    → resolve_candidate index alias s ≡ o
    → All (Served s protocol) rest
    → All (Served s protocol) (add_fallback protocol o rest)
add_fallback-Served protocol index alias s (failure e) rest h all = all
add_fallback-Served protocol index alias s (success c) rest h all =
    elim (Bool-cases (candidate_speaks protocol c)) [
      | inr mute ↦ rw mute all
      | inl speaks ↦ rw speaks (
        speaks-Served s protocol alias c (resolve_candidate-Routed index alias s c h) speaks,
        all,
      )
    ]

fallback_candidates-Served :
    (protocol : String) (index : ℕ) (aliases : List String) (s : MemoryStore)
    → All (Served s protocol) (fallback_candidates protocol index aliases s)
unfolding fallback_candidates
fallback_candidates-Served protocol index [] s = tt
fallback_candidates-Served protocol index (alias ∷ aliases) s =
    add_fallback-Served protocol index alias s (resolve_candidate index alias s) _ refl
      (fallback_candidates-Served protocol (suc index) aliases s)

-- The list of a success.
abbrev pub OnSuccess :
    (List RouteCandidate → Type 0) → Outcome RequestError (List RouteCandidate) → Type 0
OnSuccess P (success cs) = P cs
OnSuccess P (failure e) = Unit

start_with-Served :
    (protocol alias : String) (s : MemoryStore) (o : Outcome RouteError RouteCandidate)
    (rest : List RouteCandidate)
    → resolve_candidate 0 alias s ≡ o
    → All (Served s protocol) rest
    → OnSuccess (All (Served s protocol)) (start_with protocol o rest)
start_with-Served protocol alias s (failure e) rest h all = tt
start_with-Served protocol alias s (success c) rest h all =
    elim (Bool-cases (candidate_speaks protocol c)) [
      | inr mute ↦ rw mute tt
      | inl speaks ↦
          rw speaks
            (speaks-Served s protocol alias c (resolve_candidate-Routed 0 alias s c h) speaks, all)
    ]

named_candidates-Served :
    (protocol model : String) (fallbacks : List String) (s : MemoryStore)
    → OnSuccess (All (Served s protocol)) (named_candidates protocol model fallbacks s)
unfolding named_candidates
named_candidates-Served protocol model fallbacks s =
    start_with-Served protocol model s (resolve_candidate 0 model s) _ refl
      (fallback_candidates-Served protocol 1 fallbacks s)

-- At least one candidate, and each of them allowed by the store and by the preferences.
abbrev pub Chosen :
    MemoryStore → String → ProviderPreferences → List String → List RouteCandidate → Type 0
Chosen s protocol prefs required cs =
    (is_empty cs ≡ false) × All (Served s protocol) cs × All (Passes prefs required) cs

some_candidates-Chosen :
    (s : MemoryStore) (protocol : String) (prefs : ProviderPreferences) (required : List String)
    (cs : List RouteCandidate)
    → All (Served s protocol) cs
    → All (Passes prefs required) cs
    → OnSuccess (Chosen s protocol prefs required) (some_candidates cs)
some_candidates-Chosen s protocol prefs required [] served liked = tt
some_candidates-Chosen s protocol prefs required (c ∷ cs) served liked = (refl, served, liked)

All-admitted :
    (P : RouteCandidate → Type 0) (prefs : ProviderPreferences) (cs : List RouteCandidate)
    → All P cs
    → All P (admitted prefs cs)
All-admitted P prefs cs h =
    ground (arith, All-filter P (λ c. in_set prefs.order c.provider.id) cs h)

admitted-in_order :
    (prefs : ProviderPreferences) (cs : List RouteCandidate)
    → All (λ c. in_order prefs c ≡ true) (admitted prefs cs)
admitted-in_order prefs cs =
    rw
      (filter_when
        (not (is_empty prefs.order)
          && not (if prefs.has_allow_fallbacks then prefs.allow_fallbacks else true))
        (λ c. in_set prefs.order c.provider.id) cs)
      (All-filter-true (in_order prefs) cs)

sorted-in_order :
    (prefs : ProviderPreferences) (cs : List RouteCandidate)
    → All (λ c. in_order prefs c ≡ true) (sort_candidates cs prefs)
unfolding sort_candidates
sorted-in_order prefs cs =
    All-sort_stable (candidate_less (provider_order_from 0 prefs.order []) prefs.sort) _
      (admitted prefs cs) (admitted-in_order prefs cs)

All-Passes :
    (prefs : ProviderPreferences) (required : List String) (cs : List RouteCandidate)
    → All (λ c. preferred prefs required c ≡ true) cs
    → All (λ c. in_order prefs c ≡ true) cs
    → All (Passes prefs required) cs
All-Passes prefs required [] h o = tt
All-Passes prefs required (c ∷ cs) h o =
    (preferred-Passes prefs required c h.0 o.0, All-Passes prefs required cs h.1 o.1)

All-sort_candidates :
    (P : RouteCandidate → Type 0) (prefs : ProviderPreferences) (cs : List RouteCandidate)
    → All P cs
    → All P (sort_candidates cs prefs)
unfolding sort_candidates
All-sort_candidates P prefs cs h =
    All-sort_stable (candidate_less (provider_order_from 0 prefs.order []) prefs.sort) P
      (admitted prefs cs) (All-admitted P prefs cs h)

sort_some-Chosen :
    (s : MemoryStore) (protocol : String) (prefs : ProviderPreferences) (required : List String)
    (cs : List RouteCandidate)
    → All (Served s protocol) cs
    → All (λ c. preferred prefs required c ≡ true) cs
    → OnSuccess (Chosen s protocol prefs required) (sort_some prefs cs)
sort_some-Chosen s protocol prefs required [] served liked = tt
sort_some-Chosen s protocol prefs required (c ∷ cs) served liked =
    some_candidates-Chosen s protocol prefs required (sort_candidates (c ∷ cs) prefs)
      (All-sort_candidates _ prefs (c ∷ cs) served)
      (All-Passes prefs required _ (All-sort_candidates _ prefs (c ∷ cs) liked)
        (sorted-in_order prefs (c ∷ cs)))

choose_from-Chosen :
    (s : MemoryStore) (protocol : String) (prefs : ProviderPreferences) (required : List String)
    (o : Outcome RequestError (List RouteCandidate))
    → OnSuccess (All (Served s protocol)) o
    → OnSuccess (Chosen s protocol prefs required) (choose_from prefs required o)
choose_from-Chosen s protocol prefs required (failure e) h = tt
choose_from-Chosen s protocol prefs required (success named) h =
    rw (filter_preferred_lem named prefs required) (
      sort_some-Chosen s protocol prefs required (filter (preferred prefs required) named)
        (All-filter _ (preferred prefs required) named h)
        (All-filter-true (preferred prefs required) named))

-- When a request resolves, there is a candidate to try, and each candidate is the route that the
-- store returns for some name, with a provider of the store whose status is empty or enabled; route
-- and provider allow the request's protocol, each of them, and the candidate passes every preference
-- that is set: the only, the ignored and, without fallbacks, the ordered providers, the parameters that
-- are required, and the limits of the prices.
pub resolve_candidates-Chosen :
    (protocol model : String) (fallbacks required : List String) (prefs : ProviderPreferences)
    (s : MemoryStore)
    → OnSuccess
        (Chosen s protocol prefs required)
        (resolve_candidates protocol model fallbacks required prefs s)
unfolding resolve_candidates
resolve_candidates-Chosen protocol model fallbacks required prefs s =
    choose_from-Chosen s protocol prefs required (named_candidates protocol model fallbacks s)
      (named_candidates-Served protocol model fallbacks s)
