-- ===== src/Gateway/Resolve/Preferences.antt =====
-- internal/gateway/handlers.go: what the provider preferences of a request promise of a candidate, apart
-- from how `resolveCandidates` and `sortCandidates` test it.
use aiyolo.Base.{
  ◌≡◌, ◌⊎◌, refl, String, Bool, true, false, not, ◌&&◌, ◌||◌, List, [], ◌∷◌, All, all, is_empty,
  if◌then◌else◌, arith, eq_iff,
}
use aiyolo.Base.Int.{ℤ, pos, ◌≤ℤ◌, ◌<ℤ◌}
use aiyolo.Text.{trim_space}
use aiyolo.Gateway.Candidates.{
  RouteCandidate, ProviderPreferences, in_set, supported_parameters, candidate_supports_parameters,
  candidate_matches_price_limits,
}
use aiyolo.Gateway.Candidates.Chosen.{preferred}

-- The name is in the list, up to blanks around the list's names.
abbrev pub Named : List String → String → Type 0
Named [] name = ⊥
Named (v ∷ vs) name = (trim_space v ≡ name) ⊎ Named vs name

in_set-Named : (vs : List String) (name : String) → in_set vs name ≡ true → Named vs name
unfolding in_set
in_set-Named [] name h = cc h
in_set-Named (v ∷ vs) name h = ground (arith, eq_iff (trim_space v) name, in_set-Named vs name)

Named-in_set : (vs : List String) (name : String) → Named vs name → in_set vs name ≡ true
unfolding in_set
Named-in_set [] name h = absurd h
Named-in_set (v ∷ vs) name h = ground (arith, h, eq_iff (trim_space v) name, Named-in_set vs name)

-- The candidate's price is not above a positive limit.
abbrev pub IsWithin : ℤ → ℤ → Type 0
IsWithin limit price = pos 0 <ℤ limit → price ≤ℤ limit

-- What the preferences that are set promise of a candidate: its provider is in a list of the only ones,
-- in no list of ignored ones, and in the order where no other may follow; it supports the parameters
-- that are required; and its prices are within the limits.
pub record Passes (prefs : ProviderPreferences) (required : List String) (c : RouteCandidate)
    : Type 0 where
  pub only : is_empty prefs.only ≡ false → Named prefs.only c.provider.id
  pub ignore : Named prefs.ignore c.provider.id → ⊥
  pub order :
      is_empty prefs.order ≡ false
      → prefs.has_allow_fallbacks ≡ true
      → prefs.allow_fallbacks ≡ false
      → Named prefs.order c.provider.id
  pub parameters :
      prefs.require_parameters ≡ true
      → All (Named (supported_parameters c.route c.provider)) required
  pub prompt : prefs.has_max_price ≡ true → IsWithin prefs.max_price.prompt c.pricing.input_price
  pub completion :
      prefs.has_max_price ≡ true → IsWithin prefs.max_price.completion c.pricing.output_price

-- The test of the providers' order.
abbrev pub in_order : ProviderPreferences → RouteCandidate → Bool
in_order prefs c =
    not (
      not (is_empty prefs.order)
      && not (if prefs.has_allow_fallbacks then prefs.allow_fallbacks else true))
    || in_set prefs.order c.provider.id

all-Named :
    (supported requested : List String)
    → all (λ p. in_set supported p) requested ≡ true
    → All (Named supported) requested
all-Named supported [] h = tt
all-Named supported (p ∷ ps) h =
    (in_set-Named supported p (ground (arith, h)), all-Named supported ps (ground (arith, h)))

ignored-empty : (vs : List String) (name : String) → Named vs name → is_empty vs ≡ false
ignored-empty [] name h = absurd h
ignored-empty (v ∷ vs) name h = refl

pub preferred-Passes :
    (prefs : ProviderPreferences) (required : List String) (c : RouteCandidate)
    → preferred prefs required c ≡ true
    → in_order prefs c ≡ true
    → Passes prefs required c
unfolding candidate_matches_price_limits candidate_supports_parameters
preferred-Passes prefs required c h o = record {
  only = λ e. in_set-Named prefs.only c.provider.id (ground (arith, h, e));
  ignore = λ n. ground (
    arith,
    h,
    Named-in_set prefs.ignore c.provider.id n,
    ignored-empty prefs.ignore c.provider.id n,
  );
  order = λ e f g. in_set-Named prefs.order c.provider.id (ground (arith, o, e, f, g));
  parameters =
      λ e. all-Named (supported_parameters c.route c.provider) required (ground (arith, h, e));
  prompt = λ e p. ground (arith, h, e, p);
  completion = λ e p. ground (arith, h, e, p);
}
