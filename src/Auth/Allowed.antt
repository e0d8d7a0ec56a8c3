-- ===== src/Auth/Allowed.antt =====
-- Which protocols and models a subject may use.
use aiyolo.Base.{String, ◌≡◌, ◌⊎◌, ◌↔◌, refl, true, eq_iff, List, [], ◌∷◌, is_empty, All, arith}
use aiyolo.Text.{trim_space}
use aiyolo.Domain.ApiKeys.{Subject}
use aiyolo.Auth.{contains, allows, authorize_additional_models}

-- A list that restricts nothing, or that has the value.
abbrev pub Permits : List String → String → Type 0
Permits values v = (values ≡ []) ⊎ (contains values v ≡ true)

is_empty_iff : (values : List String) → (is_empty values ≡ true) ↔ (values ≡ [])
is_empty_iff [] = ((λ e. refl), (λ e. refl))
is_empty_iff (v ∷ vs) = ((λ e. cc), (λ e. cc))

module _ (subject : Subject) (protocol model : String) where
  allows_sound :
      allows subject protocol model ≡ true
      → ((trim_space protocol ≡ "") ⊎ Permits subject.allowed_protocols protocol)
        × ((model ≡ "") ⊎ Permits subject.allowed_models model)
  unfolding allows
  allows_sound h = ground (
    arith,
    eq_iff (trim_space protocol) "",
    eq_iff model "",
    is_empty_iff subject.allowed_protocols,
    is_empty_iff subject.allowed_models,
  )

  allows_complete :
      ((trim_space protocol ≡ "") ⊎ Permits subject.allowed_protocols protocol)
        × ((model ≡ "") ⊎ Permits subject.allowed_models model)
      → allows subject protocol model ≡ true
  unfolding allows
  allows_complete h = ground (
    arith,
    eq_iff (trim_space protocol) "",
    eq_iff model "",
    is_empty_iff subject.allowed_protocols,
    is_empty_iff subject.allowed_models,
  )

  -- A subject may use a protocol and a model exactly when each is blank, unrestricted or listed.
  pub allows_iff : (allows subject protocol model ≡ true) ↔ (
      ((trim_space protocol ≡ "") ⊎ Permits subject.allowed_protocols protocol)
      × ((model ≡ "") ⊎ Permits subject.allowed_models model))
  allows_iff = (allows_sound, allows_complete)

-- The fallback models are authorised exactly when each of them is allowed.
pub authorize_additional_models_iff :
    (subject : Subject) (protocol : String) (models : List String)
    → (authorize_additional_models subject protocol models ≡ true)
      ↔ All (λ m. allows subject protocol m ≡ true) models
unfolding authorize_additional_models
authorize_additional_models_iff subject protocol [] = ((λ e. tt), (λ e. refl))
authorize_additional_models_iff subject protocol (m ∷ ms) =
    let rest = authorize_additional_models_iff subject protocol ms in
    ((λ e. ground (arith, rest)), (λ e. ground (arith, rest)))
