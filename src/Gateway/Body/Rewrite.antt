-- ===== src/Gateway/Body/Rewrite.antt =====
-- internal/gateway/handlers.go: what the gateway writes into a body before it passes it on. A write to
-- the nil map that the JSON text `null` decodes to is a panic of Go.
use aiyolo.Base.{String, Bool, true, false, Option, none, some}
use aiyolo.Dict.{insert, string_key}
use aiyolo.Json.{Json, Map, string, Decoded, failed, nil_map, decoded}

-- The body as it came, a payload that is encoded anew, an error, or a panic.
pub data Rewritten : Type 0 where
  kept : Rewritten
  rewritten : Map → Rewritten
  refused : Rewritten
  panicked : Rewritten

-- `rewriteModel`.
unfoldable pub rewrite_model : Decoded → String → Rewritten
rewrite_model failed model = refused
rewrite_model nil_map model = panicked
rewrite_model (decoded payload) model = rewritten (insert "model" (string model) payload)

-- `injectRouterMetadata`, of a body that is empty or not.
unfoldable pub inject_router_metadata : Bool → Decoded → Json → Rewritten
inject_router_metadata true body metadata = kept
inject_router_metadata false failed metadata = kept
inject_router_metadata false nil_map metadata = panicked
inject_router_metadata false (decoded payload) metadata =
    rewritten (insert "aiyolo_metadata" metadata payload)

abbrev pub text_or_blank : Option String → String
text_or_blank none = ""
text_or_blank (some s) = s

abbrev pub true_or_not : Option Bool → Bool
true_or_not none = false
true_or_not (some b) = b
