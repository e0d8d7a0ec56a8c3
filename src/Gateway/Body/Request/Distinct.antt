-- ===== src/Gateway/Body/Request/Distinct.antt =====
-- A request that `parseCompatibleRequest` reads is in normal form.
use aiyolo.Base.{
  ◌≡◌, ◌≢◌, sym, ◌∙◌, subst, String, ◌===◌, List, [], ◌∷◌, Option, none, some, All, eq_iff, arith,
  Bool-cases, inl, inr,
}
use aiyolo.Base.Int.{ℤ}
use aiyolo.Text.{trim_space, str_lt}
use aiyolo.Text.Trim.{trim_space_idem}
use aiyolo.Sort.Laws.{IsSorted, sort_stable-IsSorted}
use aiyolo.Sort.Orders.{str_lt-IsStrictWeak}
use aiyolo.Domain.Protocols.Distinct.{
  Distinct, IsForm, member-distinct_by, distinct_by-Distinct, distinct_by-IsForm,
}
use aiyolo.Gateway.Candidates.{ProviderPreferences}
use aiyolo.Json.{Json, Map, get, as_string, Decoded, readable}
use aiyolo.Gateway.Body.Rewrite.{text_or_blank}
use aiyolo.Gateway.Body.Request.{
  Parsed, bad, good, ◌>>=◌, PreferenceError, CompatibleRequest, named_error, models_or_error,
  assembled, request_of, request_of_readable, requested_parameter_names, parse_compatible_request,
  parse_string_list, parse_provider_preferences,
}

-- The model is trimmed and named, the models are all different, trimmed and named, and the parameters
-- are in order.
pub record IsNormal (r : CompatibleRequest) : Type 0 where
  pub named : r.model ≢ ""
  pub trimmed : trim_space r.model ≡ r.model
  pub distinct : Distinct (r.model ∷ r.fallback_models)
  pub forms : All (IsForm trim_space) r.fallback_models
  pub sorted : IsSorted str_lt r.required_parameters

assembled-IsNormal :
    (payload : Map) (model : String) (models : List String) (prefs : ProviderPreferences)
    → model ≢ ""
    → trim_space model ≡ model
    → IsNormal (assembled payload model models prefs)
unfolding requested_parameter_names
assembled-IsNormal payload model models prefs n t = record {
  named = n;
  trimmed = t;
  distinct = (
    member-distinct_by trim_space model (model ∷ []) models ∙ ground (arith, eq_iff model model),
    distinct_by-Distinct trim_space (model ∷ []) models,
  );
  forms = distinct_by-IsForm trim_space trim_space_idem (model ∷ []) models;
  sorted = sort_stable-IsSorted str_lt str_lt-IsStrictWeak _;
}

-- What a successful reading is assembled from.
assembled_from :
    (payload : Map) (model : String) (models : Option (List String))
    (prefs : Parsed PreferenceError ProviderPreferences) {r : CompatibleRequest}
    → (models_or_error models >>= λ ms.
        named_error prefs >>= λ ps. good (assembled payload model ms ps))
      ≡ good r
    → (ms : List String) × (ps : ProviderPreferences) × (assembled payload model ms ps ≡ r)
assembled_from payload model none prefs h = absurd (cc h)
assembled_from payload model (some ms) (bad e) h = absurd (cc h)
assembled_from payload model (some ms) (good ps) h = (ms, ps, cc h)

module _ (price : Json → Option ℤ) where
  request_of-IsNormal :
      (payload : Map) (model : String) {r : CompatibleRequest}
      → trim_space model ≡ model
      → request_of price payload model ≡ good r
      → IsNormal r
  request_of-IsNormal payload model {r} t h = elim (Bool-cases (model === "")) [
    | inl e ↦ absurd (cc (rw e at h))
    | inr e ↦
        let from =
          assembled_from payload model (parse_string_list (get "models" payload))
            (parse_provider_preferences price (get "provider" payload)) (rw e at h) in
        subst IsNormal from.2 (
          assembled-IsNormal payload model from.0 from.1 (λ n. cc (sym e ∙ (eq_iff model "").1 n))
            t)
  ]

  readable-IsNormal :
      (o : Option Map) {r : CompatibleRequest} → request_of_readable price o ≡ good r → IsNormal r
  readable-IsNormal none h = absurd (cc h)
  readable-IsNormal (some payload) h =
      request_of-IsNormal payload _
        (trim_space_idem (text_or_blank (as_string (get "model" payload)))) h

  -- A request that is read without an error has a model that is trimmed and not empty; its fallback
  -- models are trimmed, not empty, and different from each other and from the model; and the names of
  -- its parameters are in order.
  pub parse_compatible_request-IsNormal :
      (body : Decoded) {r : CompatibleRequest}
      → parse_compatible_request price body ≡ good r
      → IsNormal r
  unfolding parse_compatible_request
  parse_compatible_request-IsNormal body h = readable-IsNormal (readable body) h
