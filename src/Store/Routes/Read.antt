-- ===== src/Store/Routes/Read.antt =====
-- What is read of providers and routes after they are saved.
use aiyolo.Base.{
  ◌≡◌, ◌≢◌, refl, String, false, ◌===◌, eq_iff, List, [], ◌∷◌, is_empty, arith, if◌then◌else◌,
  Bool-cases, inl, inr,
}
use aiyolo.Dict.{string_key}
use aiyolo.Dict.Laws.{lookup-insert}
use aiyolo.Domain.Time.{Time, or_now}
use aiyolo.Domain.Routes.{ModelRoute}
use aiyolo.Domain.Protocols.{protocol_openai, normalize_protocol, normalize_protocols}
use aiyolo.Domain.Protocols.Laws.{
  IsNormal, normalize_protocol_idem, normalize_protocols-IsNormal, normalize_protocols_of_IsNormal,
  openai_form, singleton-IsNormal,
}
use aiyolo.Store.State.{MemoryStore, ok, err, not_found}
use aiyolo.Store.Routes.{
  allowed_or_default, protocol_or_first, stored_route, upsert_model_route, get_model_route,
}

-- A list of protocols in normal form that is not empty, and one of them.
abbrev NonEmptyNormal : List String → Type 0
NonEmptyNormal allowed = IsNormal allowed × (is_empty allowed ≡ false)

abbrev IsProtocol : String → Type 0
IsProtocol s = (normalize_protocol s ≡ s) × ((s === "") ≡ false)

allowed_or_default-IsNormal :
    (listed : List String) (protocol : String)
    → IsNormal listed
    → normalize_protocol protocol ≡ protocol
    → NonEmptyNormal (allowed_or_default listed protocol)
unfolding allowed_or_default
allowed_or_default-IsNormal (v ∷ vs) protocol h k = (h, refl)
allowed_or_default-IsNormal [] protocol h k = elim (Bool-cases (protocol === "")) [
  | inl blank ↦ rw blank (singleton-IsNormal protocol_openai openai_form refl, refl)
  | inr named ↦ rw named (singleton-IsNormal protocol k named, refl)
]

allowed_or_default_of_NonEmptyNormal :
    (allowed : List String) (protocol : String)
    → NonEmptyNormal allowed
    → allowed_or_default (normalize_protocols allowed) protocol ≡ allowed
unfolding allowed_or_default
allowed_or_default_of_NonEmptyNormal allowed protocol h =
    rw (normalize_protocols_of_IsNormal allowed h.0) (rw (h.1) (rw (h.1) refl))

protocol_or_first-IsProtocol :
    (protocol : String) (allowed : List String)
    → normalize_protocol protocol ≡ protocol
    → NonEmptyNormal allowed
    → IsProtocol (protocol_or_first protocol allowed)
protocol_or_first-IsProtocol protocol [] k h = absurd (ground (arith, h.1))
protocol_or_first-IsProtocol protocol (v ∷ vs) k h =
    ground (arith, eq_iff protocol "", eq_iff v "", h.0.1.0)

-- The protocols that a saved route allows are in normal form, and there is at least one; its own
-- protocol is in normal form and not empty.
pub stored_route-IsNormal :
    (clock : Time) (route : ModelRoute)
    → NonEmptyNormal (stored_route clock route).allowed_protocols
      × IsProtocol (stored_route clock route).protocol
unfolding stored_route
stored_route-IsNormal clock route =
    (allowed, protocol_or_first-IsProtocol _ _ (normalize_protocol_idem route.protocol) allowed)
  where
    allowed : NonEmptyNormal (
        allowed_or_default
          (normalize_protocols route.allowed_protocols)
          (normalize_protocol route.protocol))
    allowed =
        allowed_or_default-IsNormal _ _ (normalize_protocols-IsNormal route.allowed_protocols)
          (normalize_protocol_idem route.protocol)

or_now_idem : (first second t : Time) → first ≢ 0 → or_now second (or_now first t) ≡ or_now first t
or_now_idem first second t h = ground arith

-- A route in the form that is stored is kept when it is saved, but for the time of its update.
stored_route_of_IsNormal :
    (clock : Time) (r : ModelRoute)
    → NonEmptyNormal r.allowed_protocols
    → IsProtocol r.protocol
    → or_now clock r.created_at ≡ r.created_at
    → stored_route clock r ≡ record r { updated_at = clock }
unfolding stored_route
stored_route_of_IsNormal clock r h k t =
    rw (k.0, k.1, allowed_or_default_of_NonEmptyNormal r.allowed_protocols r.protocol h, t) refl

-- Saving a saved route again changes nothing but the time of its update, where the clock of the
-- first save is not the zero time.
pub stored_route_idem :
    (first second : Time) (route : ModelRoute)
    → first ≢ 0
    → stored_route second (stored_route first route)
      ≡ record (stored_route first route) { updated_at = second }
unfolding stored_route
stored_route_idem first second route h =
    stored_route_of_IsNormal second (stored_route first route) (stored_route-IsNormal first route).0
      (stored_route-IsNormal first route).1 (or_now_idem first second route.created_at h)

-- A saved route is found under its name exactly when it is enabled, as it was normalised; the routes
-- under other names are what they were.
pub get-upsert_model_route :
    (clock : Time) (route : ModelRoute) (name : String) (s : MemoryStore)
    → get_model_route name (upsert_model_route clock route s) ≡ (
        if route.public_name === name
        then if route.enabled then ok (stored_route clock route) else err not_found
        else get_model_route name s)
unfolding get_model_route upsert_model_route stored_route
get-upsert_model_route clock route name s =
    rw (lookup-insert route.public_name name (stored_route clock route) s.routes) (ground arith)
