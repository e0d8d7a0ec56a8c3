-- ===== src/Gateway/Body/Request.antt =====
-- internal/gateway/handlers.go: what the gateway reads of a request's body.
pub mod Distinct
use aiyolo.Base.{
  String, Bool, true, false, not, ◌&&◌, ◌||◌, ◌===◌, List, [], ◌∷◌, Option, none, some, filter, map,
  if◌then◌else◌,
}
use aiyolo.Base.Int.{ℤ, pos}
use aiyolo.Text.{trim_space, to_lower, is_blank, str_lt}
use aiyolo.Sort.{sort_stable}
use aiyolo.Domain.Protocols.Distinct.{member, distinct_by}
use aiyolo.Gateway.Candidates.{ProviderPreferences, ProviderPriceLimits}
use aiyolo.Json.{
  Json, Items, Fields, null, bool, number, string, array, object, Map, elements, entries, get,
  is_null, as_string, as_bool, Decoded, readable,
}
use aiyolo.Gateway.Body.Rewrite.{text_or_blank, true_or_not}

-- A result, or the error in its place.
pub data Parsed (E A : Type 0) : Type 0 where
  bad : E → Parsed E A
  good : A → Parsed E A

infixl 5 ◌>>=◌
abbrev pub ◌>>=◌ : {E A B : Type 0} → Parsed E A → (A → Parsed E B) → Parsed E B
bad e >>= f = bad e
good a >>= f = f a

-- The errors of the provider preferences, by what they name.
pub data PreferenceError : Type 0 where
  no_object no_list price_no_object collection_denied zdr_required : PreferenceError
  no_boolean no_string price_no_number unknown_price unknown_field : String → PreferenceError
  unsupported_sort unsupported_policy : String → PreferenceError

-- The texts of a list, if it has nothing else.
unfoldable pub all_texts : List Json → Option (List String)
all_texts [] = some []
all_texts (string s ∷ vs) = elim (all_texts vs) [ none ↦ none | some ss ↦ some (s ∷ ss) ]
all_texts (_ ∷ vs) = none

-- `parseStringList`: the trimmed texts, without blanks and repetitions.
unfoldable pub parse_string_list : Json → Option (List String)
parse_string_list null = some []
parse_string_list (array vs) = elim (all_texts (elements vs)) [
  | none ↦ none
  | some ss ↦ some (distinct_by trim_space [] ss)
]
parse_string_list _ = none

abbrev list_or : PreferenceError → Option (List String) → Parsed PreferenceError (List String)
list_or e none = bad e
list_or e (some ss) = good ss

abbrev bool_or : PreferenceError → Option Bool → Parsed PreferenceError Bool
bool_or e none = bad e
bool_or e (some b) = good b

abbrev text_or : PreferenceError → Option String → Parsed PreferenceError String
text_or e none = bad e
text_or e (some s) = good s

abbrev is_sort : String → Bool
is_sort s = member s ("" ∷ "price" ∷ "priority" ∷ "latency" ∷ "throughput" ∷ [])

abbrev checked_sort : ProviderPreferences → String → Parsed PreferenceError ProviderPreferences
checked_sort prefs s =
    if is_sort s then good (record prefs { sort = s }) else bad (unsupported_sort s)

-- `data_collection` and `zdr` are checked, and nothing reads them afterwards.
abbrev checked_policy : ProviderPreferences → String → Parsed PreferenceError ProviderPreferences
checked_policy prefs policy =
    if policy === "deny"
    then bad collection_denied
    else if not (policy === "") && not (policy === "allow")
    then bad (unsupported_policy policy)
    else good prefs

abbrev checked_zdr : ProviderPreferences → Bool → Parsed PreferenceError ProviderPreferences
checked_zdr prefs zdr = if zdr then bad zdr_required else good prefs

abbrev pub no_preferences : ProviderPreferences
no_preferences = record {
  order = [];
  only = [];
  ignore = [];
  sort = "";
  allow_fallbacks = false;
  has_allow_fallbacks = false;
  require_parameters = false;
  has_max_price = false;
  max_price = record { prompt = pos 0; completion = pos 0 };
}

-- The names that are no parameters of a request.
abbrev pub ignored_names : List String
ignored_names =
    "model" ∷ "models" ∷ "messages" ∷ "prompt" ∷ "suffix" ∷ "input" ∷ "instructions" ∷ "system"
    ∷ "provider" ∷ "route" ∷ []

unfoldable pub parameter_names : Map → List String
parameter_names [] = []
parameter_names ((key, value) ∷ payload) =
    if member key ignored_names || is_null value
    then parameter_names payload
    else key ∷ parameter_names payload

-- `requestedParameterNames`.
unfoldable pub requested_parameter_names : Map → List String
requested_parameter_names payload = sort_stable str_lt (parameter_names payload)

-- `compatibleRequest`, without the payload that it also carries.
pub record CompatibleRequest : Type 0 where
  pub model : String
  pub fallback_models : List String
  pub stream : Bool
  pub required_parameters : List String
  pub provider : ProviderPreferences

pub data ParseError : Type 0 where
  not_json model_required models_no_list : ParseError
  bad_preferences : PreferenceError → ParseError

abbrev named_error : {A : Type 0} → Parsed PreferenceError A → Parsed ParseError A
named_error (bad e) = bad (bad_preferences e)
named_error (good a) = good a

abbrev models_or_error : Option (List String) → Parsed ParseError (List String)
models_or_error none = bad models_no_list
models_or_error (some ss) = good ss

-- The request that is read: the models without repetitions of each other and of the first.
abbrev pub assembled : Map → String → List String → ProviderPreferences → CompatibleRequest
assembled payload model models prefs = record {
  model = model;
  fallback_models = distinct_by trim_space (model ∷ []) models;
  stream = true_or_not (as_bool (get "stream" payload));
  required_parameters = requested_parameter_names payload;
  provider = prefs;
}

-- `price` is `numericValue`, in the unit of the price limits; none is its error.
module _ (price : Json → Option ℤ) where
  abbrev price_limit :
      String → Option ℤ → ProviderPriceLimits → Parsed PreferenceError ProviderPriceLimits
  price_limit key none limits = bad (price_no_number key)
  price_limit key (some p) limits =
      if key === "prompt"
      then good (record limits { prompt = p })
      else if key === "completion"
      then good (record limits { completion = p })
      else bad (unknown_price key)

  price_limits_from : Map → ProviderPriceLimits → Parsed PreferenceError ProviderPriceLimits
  price_limits_from [] limits = good limits
  price_limits_from ((key, raw) ∷ m) limits =
      price_limit key (price raw) limits >>= λ next. price_limits_from m next

  -- `parseProviderMaxPrice`.
  unfoldable pub parse_provider_max_price : Json → Parsed PreferenceError ProviderPriceLimits
  unfolding price_limits_from
  parse_provider_max_price (object fs) =
      price_limits_from (entries fs) (record { prompt = pos 0; completion = pos 0 })
  parse_provider_max_price _ = bad price_no_object

  -- One entry of the preferences.
  unfoldable pub parse_preference :
      String → Json → ProviderPreferences → Parsed PreferenceError ProviderPreferences
  parse_preference key raw prefs =
      if key === "order"
      then list_or no_list (parse_string_list raw) >>= (λ v. good (record prefs { order = v }))
      else if key === "only"
      then list_or no_list (parse_string_list raw) >>= (λ v. good (record prefs { only = v }))
      else if key === "ignore"
      then list_or no_list (parse_string_list raw) >>= (λ v. good (record prefs { ignore = v }))
      else if key === "allow_fallbacks"
      then bool_or (no_boolean key) (as_bool raw)
        >>= (λ v. good (record prefs { allow_fallbacks = v; has_allow_fallbacks = true }))
      else if key === "require_parameters"
      then bool_or (no_boolean key) (as_bool raw)
        >>= (λ v. good (record prefs { require_parameters = v }))
      else if key === "sort"
      then text_or (no_string key) (as_string raw)
        >>= (λ v. checked_sort prefs (to_lower (trim_space v)))
      else if key === "max_price"
      then parse_provider_max_price raw
        >>= (λ v. good (record prefs { max_price = v; has_max_price = true }))
      else if key === "data_collection"
      then text_or (no_string key) (as_string raw)
        >>= (λ v. checked_policy prefs (to_lower (trim_space v)))
      else if key === "zdr"
      then bool_or (no_boolean key) (as_bool raw) >>= (λ v. checked_zdr prefs v)
      else bad (unknown_field key)

  unfoldable pub preferences_from :
      Map → ProviderPreferences → Parsed PreferenceError ProviderPreferences
  preferences_from [] prefs = good prefs
  preferences_from ((key, raw) ∷ m) prefs =
      parse_preference key raw prefs >>= λ next. preferences_from m next

  -- `parseProviderPreferences`.
  unfoldable pub parse_provider_preferences : Json → Parsed PreferenceError ProviderPreferences
  parse_provider_preferences null = good no_preferences
  parse_provider_preferences (object fs) = preferences_from (entries fs) no_preferences
  parse_provider_preferences _ = bad no_object

  abbrev pub request_of : Map → String → Parsed ParseError CompatibleRequest
  request_of payload model =
      if model === ""
      then bad model_required
      else models_or_error (parse_string_list (get "models" payload)) >>= λ models.
          named_error (parse_provider_preferences (get "provider" payload)) >>= λ prefs.
          good (assembled payload model models prefs)

  abbrev pub request_of_readable : Option Map → Parsed ParseError CompatibleRequest
  request_of_readable none = bad not_json
  request_of_readable (some payload) =
      request_of payload (trim_space (text_or_blank (as_string (get "model" payload))))

  -- `parseCompatibleRequest`.
  unfoldable pub parse_compatible_request : Decoded → Parsed ParseError CompatibleRequest
  parse_compatible_request body = request_of_readable (readable body)
