-- ===== src/Gateway/Responses/Stream/Said.antt =====
-- What the events of a Responses stream say: the deltas of a text, joined, are the text that its last
-- event has.
use Prim.Native.String.{◌++◌ as append}
use text.Mathlib.TextLemmas.{nil-append, append-nil, append_assoc}
use aiyolo.Base.{
  ◌≡◌, refl, sym, ap, ◌∙◌, String, false, ◌===◌, List, [], ◌∷◌, ◌++◌, Option, none, some,
  Bool-cases, inl, inr, if◌then◌else◌,
}
use aiyolo.Dict.{string_key}
use aiyolo.Json.{Json, Map, string, get}
use aiyolo.Json.Laws.{get-insert}
use aiyolo.Gateway.Responses.Stream.{
  StreamState, Written, event, done_marker, Step, ◌>>=◌, skip, with_metadata, write_event,
}

abbrev text_of : Json → String
text_of (string s) = s
text_of _ = ""

-- The texts under a key in the events of a name, joined.
unfoldable pub said : String → String → List Written → String
said name key [] = ""
said name key (done_marker ∷ ws) = said name key ws
said name key (event n payload ∷ ws) =
    if n === name then append (text_of (get key payload)) (said name key ws) else said name key ws

pub said-append :
    (name key : String) (xs ys : List Written)
    → said name key (xs ++ ys) ≡ append (said name key xs) (said name key ys)
unfolding said
said-append name key [] ys = sym (nil-append (said name key ys))
said-append name key (done_marker ∷ xs) ys = said-append name key xs ys
said-append name key (event n payload ∷ xs) ys = elim (Bool-cases (n === name)) [
  | inl e ↦
      rw (e, said-append name key xs ys)
        (sym (append_assoc (text_of (get key payload)) (said name key xs) (said name key ys)))
  | inr e ↦ rw e (said-append name key xs ys)
]

-- The metadata is under a key of its own.
get-with_metadata :
    (metadata : Option Json) (key : String) (payload : Map)
    → ("aiyolo_metadata" === key) ≡ false
    → get key (with_metadata metadata payload) ≡ get key payload
get-with_metadata none key payload h = refl
get-with_metadata (some m) key payload h = rw (get-insert "aiyolo_metadata" key m payload, h) refl

-- One event.
pub said_event :
    (metadata : Option Json) (name key n : String) (payload : Map) (ws : List Written)
    → ("aiyolo_metadata" === key) ≡ false
    → said name key (write_event metadata n payload ∷ ws) ≡ (
        if n === name
        then append (text_of (get key (("type", string n) ∷ payload))) (said name key ws)
        else said name key ws)
unfolding said write_event
said_event metadata name key n payload ws h =
    rw (get-with_metadata metadata key (("type", string n) ∷ payload) h) refl

abbrev pub text_deltas : List Written → String
text_deltas = said "response.output_text.delta" "delta"

abbrev pub finished_text : List Written → String
finished_text = said "response.output_text.done" "text"

abbrev pub reasoning_deltas : List Written → String
reasoning_deltas = said "response.reasoning_summary_text.delta" "delta"

abbrev pub finished_reasoning : List Written → String
finished_reasoning = said "response.reasoning_summary_text.done" "text"

-- Without a reasoning item there is no reasoning.
abbrev pub HasNoStrayReasoning : StreamState → Type 0
HasNoStrayReasoning s = s.reasoning_started ≡ false → s.reasoning ≡ ""

-- A step collects the deltas that it writes, and finishes nothing.
pub record Collects (s : StreamState) (step : Step) : Type 0 where
  pub content : step.0.content ≡ append s.content (text_deltas step.1)
  pub reasoning : step.0.reasoning ≡ append s.reasoning (reasoning_deltas step.1)
  pub no_text : finished_text step.1 ≡ ""
  pub no_reasoning : finished_reasoning step.1 ≡ ""
  pub kept : HasNoStrayReasoning s → HasNoStrayReasoning step.0

-- A step that writes no delta and collects nothing.
pub quiet :
    (s : StreamState) (step : Step)
    → step.0.content ≡ s.content
    → step.0.reasoning ≡ s.reasoning
    → text_deltas step.1 ≡ ""
    → reasoning_deltas step.1 ≡ ""
    → finished_text step.1 ≡ ""
    → finished_reasoning step.1 ≡ ""
    → (HasNoStrayReasoning s → HasNoStrayReasoning step.0)
    → Collects s step
quiet s step c r td rd ft fr k = record {
  content = rw td (c ∙ sym (append-nil s.content));
  reasoning = rw rd (r ∙ sym (append-nil s.reasoning));
  no_text = ft;
  no_reasoning = fr;
  kept = k;
}

pub skip-Collects : (s : StreamState) → Collects s (skip s)
unfolding said
skip-Collects s = quiet s (skip s) refl refl refl refl refl refl (λ h. h)

-- Steps in sequence.
joined :
    (name key : String) (old mid new : String) (xs ys : List Written)
    → mid ≡ append old (said name key xs)
    → new ≡ append mid (said name key ys)
    → new ≡ append old (said name key (xs ++ ys))
joined name key old mid new xs ys p q =
    q
    ∙ ap (λ t. append t (said name key ys)) p
    ∙ append_assoc old (said name key xs) (said name key ys)
    ∙ ap (λ t. append old t) (sym (said-append name key xs ys))

silent :
    (name key : String) (xs ys : List Written)
    → said name key xs ≡ ""
    → said name key ys ≡ ""
    → said name key (xs ++ ys) ≡ ""
silent name key xs ys p q = said-append name key xs ys ∙ rw (p, q) (nil-append "")

pub then-Collects :
    (s : StreamState) (m : Step) (f : StreamState → Step)
    → Collects s m
    → Collects m.0 (f m.0)
    → Collects s (m >>= f)
then-Collects s m f a b = record {
  content = joined _ _ s.content m.0.content (f m.0).0.content m.1 (f m.0).1 a.content b.content;
  reasoning =
      joined _ _ s.reasoning m.0.reasoning (f m.0).0.reasoning m.1 (f m.0).1 a.reasoning
        b.reasoning;
  no_text = silent _ _ m.1 (f m.0).1 a.no_text b.no_text;
  no_reasoning = silent _ _ m.1 (f m.0).1 a.no_reasoning b.no_reasoning;
  kept = λ h. b.kept (a.kept h);
}
