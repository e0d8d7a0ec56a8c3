-- ===== src/Domain/Protocols/Laws.antt =====
-- Protocol lists: what the normal form keeps, and which protocols a list supports.
use aiyolo.Base.{
  ◌≡◌, refl, String, List, [], ◌∷◌, false, not, ◌&&◌, ◌===◌, eq_iff, any, All, arith, Bool-cases,
  inl, inr, is_empty,
}
use aiyolo.Text.{trim_space, to_lower}
use aiyolo.Text.Trim.{to_lower-trim_space_idem}
use aiyolo.Domain.Routes.{Provider}
use aiyolo.Domain.Protocols.Distinct.{
  Distinct, IsForm, Fresh, member-distinct_by, distinct_by-Distinct, distinct_by-IsForm,
  distinct_by_of_Distinct,
}
use aiyolo.Domain.Protocols.{
  protocol_openai, normalize_protocol, normalize_protocols, supports_protocol,
  provider_supported_protocols,
}

pub normalize_protocol_idem :
    (s : String) → normalize_protocol (normalize_protocol s) ≡ normalize_protocol s
unfolding normalize_protocol
normalize_protocol_idem s = to_lower-trim_space_idem s

-- A list supports a protocol exactly when the protocol is not blank and some entry of the list
-- reads the same after trimming and lower-casing; duplicates and blank entries do not matter.
pub supports_protocol_lem :
    (values : List String) (protocol : String)
    → supports_protocol values protocol ≡ (
        not (normalize_protocol protocol === "")
        && any (λ v. normalize_protocol v === normalize_protocol protocol) values)
unfolding supports_protocol normalize_protocols
supports_protocol_lem values protocol =
    ground (arith, member-distinct_by normalize_protocol (normalize_protocol protocol) [] values)

-- A list of protocols in normal form: normal, not empty, and without repetition.
abbrev pub IsNormal : List String → Type 0
IsNormal values = Distinct values × All (IsForm normalize_protocol) values

pub normalize_protocols-IsNormal : (values : List String) → IsNormal (normalize_protocols values)
unfolding normalize_protocols
normalize_protocols-IsNormal values = (
  distinct_by-Distinct normalize_protocol [] values,
  distinct_by-IsForm normalize_protocol normalize_protocol_idem [] values,
)

Fresh-nil : (values : List String) → Fresh normalize_protocol [] values
Fresh-nil [] = tt
Fresh-nil (v ∷ vs) = (refl, Fresh-nil vs)

pub normalize_protocols_of_IsNormal :
    (values : List String) → IsNormal values → normalize_protocols values ≡ values
unfolding normalize_protocols
normalize_protocols_of_IsNormal values h =
    distinct_by_of_Distinct normalize_protocol [] values h.0 h.1 (Fresh-nil values)

-- Normalising a list of protocols yields distinct, trimmed, lower-case, non-empty names, and doing
-- it again changes nothing.
pub normalize_protocols_idem :
    (values : List String)
    → IsNormal (normalize_protocols values)
      × (normalize_protocols (normalize_protocols values) ≡ normalize_protocols values)
normalize_protocols_idem values = (
  normalize_protocols-IsNormal values,
  normalize_protocols_of_IsNormal _ (normalize_protocols-IsNormal values),
)

pub openai_form : normalize_protocol protocol_openai ≡ protocol_openai
unfolding normalize_protocol trim_space to_lower
openai_form = refl

pub singleton-IsNormal :
    (s : String) → normalize_protocol s ≡ s → (s === "") ≡ false → IsNormal (s ∷ [])
singleton-IsNormal s h k = ground (arith, eq_iff s "")

provider_supported_protocols-IsNormal :
    (p : Provider)
    → IsNormal (provider_supported_protocols p)
      × (is_empty (provider_supported_protocols p) ≡ false)
unfolding provider_supported_protocols
provider_supported_protocols-IsNormal p =
    elim (Bool-cases (is_empty (normalize_protocols p.supported_protocols))) [
      | inr given ↦ rw given (normalize_protocols-IsNormal p.supported_protocols, given)
      | inl none_given ↦ rw none_given (elim (Bool-cases (normalize_protocol p.protocol === "")) [
        | inl blank ↦ rw blank (singleton-IsNormal protocol_openai openai_form refl, refl)
        | inr named ↦
            rw named (singleton-IsNormal _ (normalize_protocol_idem p.protocol) named, refl)
      ])
    ]
