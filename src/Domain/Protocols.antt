-- ===== src/Domain/Protocols.antt =====
-- internal/domain/types.go: protocol names and the protocols that a route or provider allows.
pub mod Distinct
pub mod Laws
use aiyolo.Base.{
  ◌≡◌, String, List, [], ◌∷◌, Bool, true, false, not, ◌&&◌, ◌===◌, if◌then◌else◌, any, is_empty,
}
use aiyolo.Text.{trim_space, to_lower}
use aiyolo.Domain.Routes.{Provider, ModelRoute}
use Distinct.{distinct_by, head_or}

abbrev pub protocol_openai : String
protocol_openai = "openai"

abbrev pub protocol_anthropic : String
protocol_anthropic = "anthropic"

pub normalize_protocol : String → String
normalize_protocol value = to_lower (trim_space value)

pub normalize_protocols : List String → List String
normalize_protocols values = distinct_by normalize_protocol [] values

pub supports_protocol : List String → String → Bool
supports_protocol values protocol =
    if normalize_protocol protocol === ""
    then false
    else any (λ value. value === normalize_protocol protocol) (normalize_protocols values)

pub provider_supported_protocols : Provider → List String
provider_supported_protocols p =
    let values = normalize_protocols p.supported_protocols in
    if not (is_empty values)
    then values
    else if not (normalize_protocol p.protocol === "")
    then normalize_protocol p.protocol ∷ []
    else protocol_openai ∷ []

pub provider_primary_protocol : Provider → String
provider_primary_protocol p =
    if not (normalize_protocol p.protocol === "")
    then normalize_protocol p.protocol
    else head_or protocol_openai (provider_supported_protocols p)

pub route_allowed_protocols : ModelRoute → Provider → List String
route_allowed_protocols r p =
    let values = normalize_protocols r.allowed_protocols in
    if not (is_empty values)
    then values
    else if not (normalize_protocol r.protocol === "")
    then normalize_protocol r.protocol ∷ []
    else provider_supported_protocols p

pub route_primary_protocol : ModelRoute → Provider → String
route_primary_protocol r p =
    if not (normalize_protocol r.protocol === "")
    then normalize_protocol r.protocol
    else head_or (provider_primary_protocol p) (route_allowed_protocols r p)
