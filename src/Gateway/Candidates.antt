-- ===== src/Gateway/Candidates.antt =====
-- internal/gateway/handlers.go: route candidates, the filters of the provider preferences, and the
-- order in which candidates are tried.
pub mod Ordered
pub mod Precedence
pub mod Chosen
use aiyolo.Base.{
  ℕ, suc, ◌≡◌, String, Bool, true, false, not, ◌&&◌, ◌||◌, ◌===◌, ◌==◌, ltb, List, [], ◌∷◌, ◌++◌,
  length, filter, all, is_empty, Option, none, some, if◌then◌else◌,
}
use aiyolo.Base.Int.{ℤ, pos, ◌+ℤ◌, ltb_ℤ, leb_ℤ, wrap64}
use aiyolo.Text.{trim_space, str_lt}
use aiyolo.Dict.{Dict, lookup, insert, string_key}
use aiyolo.Domain.Routes.{Provider, ModelRoute, ProxyProfile, PricingRule}
use aiyolo.Domain.Protocols.{protocol_openai, protocol_anthropic, route_allowed_protocols}
use aiyolo.Domain.Protocols.Distinct.{member}
use aiyolo.Sort.{sort_stable}

pub record RouteCandidate : Type 0 where
  pub model_index : ℕ
  pub route : ModelRoute
  pub provider : Provider
  pub profile : ProxyProfile
  pub pricing : PricingRule

-- `providerPriceLimits`. A limit is a `float64` in the source; here it is the integer of which it is
-- the hundred-trillionth part, the unit that `pricePerToken` divides a price into.
pub record ProviderPriceLimits : Type 0 where
  pub prompt : ℤ
  pub completion : ℤ

-- The fields of `providerPreferences` that the routing reads.
pub record ProviderPreferences : Type 0 where
  pub order : List String
  pub only : List String
  pub ignore : List String
  pub sort : String
  pub allow_fallbacks : Bool
  pub has_allow_fallbacks : Bool
  pub require_parameters : Bool
  pub has_max_price : Bool
  pub max_price : ProviderPriceLimits

-- `slice_to_set`, as the test that a value is in the set of the trimmed texts.
unfoldable pub in_set : List String → String → Bool
in_set [] value = false
in_set (v ∷ vs) value = trim_space v === value || in_set vs value

-- The names that `supportedParameters` adds for one protocol.
abbrev parameters_of : String → List String
parameters_of protocol =
    if protocol === protocol_anthropic
    then "max_tokens" ∷ "system" ∷ "stream" ∷ "tools" ∷ "tool_choice" ∷ "stop_sequences"
      ∷ "temperature" ∷ "top_p" ∷ "top_k" ∷ []
    else "stream" ∷ "temperature" ∷ "top_p" ∷ "max_tokens" ∷ "max_completion_tokens" ∷ "stop"
      ∷ "tools" ∷ "tool_choice" ∷ "parallel_tool_calls" ∷ "response_format" ∷ "seed" ∷ "user"
      ∷ "service_tier" ∷ []

-- `appendUnique`.
pub append_unique : List String → List String → List String
append_unique result [] = result
append_unique result (v ∷ vs) =
    append_unique (if member v result then result else result ++ v ∷ []) vs

pub supported_from : List String → List String → List String
unfolding append_unique
supported_from result [] = result
supported_from result (p ∷ ps) = supported_from (append_unique result (parameters_of p)) ps

-- `supportedParameters`.
unfoldable pub supported_parameters : ModelRoute → Provider → List String
unfolding supported_from
supported_parameters route provider =
    let protocols = route_allowed_protocols route provider in
    supported_from [] (if is_empty protocols then protocol_openai ∷ [] else protocols)

-- `candidateSupportsParameters`.
unfoldable pub candidate_supports_parameters : RouteCandidate → List String → Bool
candidate_supports_parameters c requested =
    all (λ p. in_set (supported_parameters c.route c.provider) p) requested

-- `pricePerToken`, in its unit.
abbrev price_per_token : ℤ → ℤ
price_per_token value = if leb_ℤ value (pos 0) then pos 0 else value

-- `candidateMatchesPriceLimits`.
unfoldable pub candidate_matches_price_limits : RouteCandidate → ProviderPriceLimits → Bool
candidate_matches_price_limits c limits =
    if ltb_ℤ (pos 0) limits.prompt && ltb_ℤ limits.prompt (price_per_token c.pricing.input_price)
    then false
    else if ltb_ℤ (pos 0) limits.completion
        && ltb_ℤ limits.completion (price_per_token c.pricing.output_price)
    then false
    else true

-- `a != b` on integers.
abbrev pub differs : ℤ → ℤ → Bool
differs a b = ltb_ℤ a b || ltb_ℤ b a

-- `if a != b { return a < b, true }`
abbrev pub decide_by : ℤ → ℤ → Option Bool
decide_by a b = if differs a b then some (ltb_ℤ a b) else none

abbrev pub total_price : RouteCandidate → ℤ
total_price c = wrap64 (c.pricing.input_price +ℤ c.pricing.output_price)

-- `compareCandidateSort`; `none` is undecided.
unfoldable pub compare_candidate_sort : RouteCandidate → RouteCandidate → String → Option Bool
compare_candidate_sort l r sort =
    if sort === "price"
    then decide_by (total_price l) (total_price r)
    else if sort === "priority" || sort === "latency"
    then decide_by l.route.priority r.route.priority
    else if sort === "throughput"
    then decide_by r.route.weight l.route.weight
    else none

-- The map `providerOrder`: a provider's last place in the list.
pub provider_order_from : ℕ → List String → Dict String ℕ → Dict String ℕ
provider_order_from i [] m = m
provider_order_from i (p ∷ ps) m = provider_order_from (suc i) ps (insert (trim_space p) i m)

abbrev or_rank : ℕ → Option ℕ → ℕ
or_rank last none = last
or_rank last (some i) = i

pub rank : Dict String ℕ → RouteCandidate → ℕ
rank order c = or_rank (length order) (lookup c.provider.id order)

-- The `less` of the last tests, which every candidate passes.
pub tie_less : RouteCandidate → RouteCandidate → Bool
tie_less l r =
    if not (l.model_index == r.model_index)
    then ltb l.model_index r.model_index
    else if differs l.route.priority r.route.priority
    then ltb_ℤ l.route.priority r.route.priority
    else if differs l.route.weight r.route.weight
    then ltb_ℤ r.route.weight l.route.weight
    else if not (l.provider.id === r.provider.id)
    then str_lt l.provider.id r.provider.id
    else str_lt l.route.public_name r.route.public_name

abbrev or_else : Option Bool → Bool → Bool
or_else none b = b
or_else (some a) b = a

-- The function that `sortCandidates` gives to `sort.SliceStable`.
pub candidate_less : Dict String ℕ → String → RouteCandidate → RouteCandidate → Bool
candidate_less order sort l r =
    if not (is_empty order) && not (rank order l == rank order r)
    then ltb (rank order l) (rank order r)
    else or_else (compare_candidate_sort l r sort) (tie_less l r)

-- `sortCandidates`.
unfoldable pub sort_candidates : List RouteCandidate → ProviderPreferences → List RouteCandidate
sort_candidates candidates prefs =
    let allow_fallbacks = if prefs.has_allow_fallbacks then prefs.allow_fallbacks else true in
    let kept =
      if not (is_empty prefs.order) && not allow_fallbacks
      then filter (λ c. in_set prefs.order c.provider.id) candidates
      else candidates in
    sort_stable (candidate_less (provider_order_from 0 prefs.order []) prefs.sort) kept

-- The filters of `resolveCandidates`, in their order.
unfoldable pub filter_preferred :
    List RouteCandidate → ProviderPreferences → List String → List RouteCandidate
filter_preferred candidates prefs required =
    let only =
      if not (is_empty prefs.only)
      then filter (λ c. in_set prefs.only c.provider.id) candidates
      else candidates in
    let not_ignored =
      if not (is_empty prefs.ignore)
      then filter (λ c. not (in_set prefs.ignore c.provider.id)) only
      else only in
    let supporting =
      if prefs.require_parameters
      then filter (λ c. candidate_supports_parameters c required) not_ignored
      else not_ignored in
    if prefs.has_max_price
    then filter (λ c. candidate_matches_price_limits c prefs.max_price) supporting
    else supporting
