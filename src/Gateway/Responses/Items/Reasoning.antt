-- ===== src/Gateway/Responses/Items/Reasoning.antt =====
-- Reasoning that the gateway stashes in an item comes back from it.
use Prim.Native.String.{◌++◌}
use text.Mathlib.TextLemmas.{cons-append, append-nil, cons-ne-nil}
use Prim.Native.Char.{Char}
use aiyolo.Base.{
  ◌≡◌, refl, String, true, false, ◌===◌, [], ◌∷◌, some, eq_iff, arith, Bool-cases, inl, inr,
}
use aiyolo.Text.{has_prefix, trim_space}
use aiyolo.Text.Join.{concat, trim_prefix, drop_prefix-append, join}
use aiyolo.Dict.{lookup, string_key}
use aiyolo.Json.{string, null, get, list, dict}
use aiyolo.Json.Texts.{first_text, reasoning_content_text}
use aiyolo.Gateway.Responses.Items.{
  Base64, reasoning_encrypted_prefix, encode_reasoning_content, decode_reasoning_content,
  reasoning_item_text,
}
use aiyolo.Gateway.Responses.Outputs.{response_reasoning_item}

has_prefix-append : (p s : String) → has_prefix (p ++ s) p ≡ true
unfolding has_prefix
has_prefix-append String.[] s = refl
has_prefix-append (String.◌∷◌ c p) s =
    rw (cons-append c p s) (ground (arith, has_prefix-append p s))

-- `base64.StdEncoding` decodes what it encodes.
abbrev pub DecodesEncoded : Base64 → Type 0
DecodesEncoded base64 = (s : String) → base64.decode (base64.encode s) ≡ some s

decode-encode :
    (base64 : Base64) (text : String)
    → DecodesEncoded base64
    → decode_reasoning_content base64 (encode_reasoning_content base64 text) ≡ text
unfolding decode_reasoning_content encode_reasoning_content trim_prefix
decode-encode base64 text law = rw (append-nil (base64.encode text)) (
    rw
      (
        has_prefix-append reasoning_encrypted_prefix (base64.encode text),
        drop_prefix-append (reasoning_encrypted_prefix ++ base64.encode text)
            reasoning_encrypted_prefix (base64.encode text),
        law text,
      )
      refl)

cons_some : (c : Char) (s : String) → (String.◌∷◌ c s === "") ≡ false
cons_some c s = elim (Bool-cases (String.◌∷◌ c s === "")) [
  | inl e ↦ absurd (cons-ne-nil c s ((eq_iff (String.◌∷◌ c s) "").0 e))
  | inr e ↦ e
]

-- The stash is not blank, for its prefix is not.
stash_starts :
    (base64 : Base64) (text : String)
    → encode_reasoning_content base64 text
      ≡ String.◌∷◌ "a" ("iyolo-reasoning:v1:" ++ concat (base64.encode text ∷ []))
unfolding encode_reasoning_content
stash_starts base64 text = cons-append "a" "iyolo-reasoning:v1:" (concat (base64.encode text ∷ []))

stashed_some :
    (base64 : Base64) (text : String) → (encode_reasoning_content base64 text === "") ≡ false
stashed_some base64 text = rw (stash_starts base64 text) (cons_some "a" _)

stashed_text :
    (base64 : Base64) (text : String)
    → first_text (string (encode_reasoning_content base64 text) ∷ [])
      ≡ encode_reasoning_content base64 text
unfolding first_text trim_space
stashed_text base64 text =
    rw (stash_starts base64 text)
      (rw (cons_some "a" ("iyolo-reasoning:v1:" ++ concat (base64.encode text ∷ []))) refl)

-- No content and no text in the summary read as no reasoning.
no_content : reasoning_content_text null ≡ ""
unfolding reasoning_content_text
no_content = refl

blank_summary :
    reasoning_content_text
      (list (dict (("type", string "summary_text") ∷ ("text", string "") ∷ []) ∷ []))
    ≡ ""
unfolding reasoning_content_text join get lookup first_text trim_space
blank_summary = refl

-- The text of the reasoning item that the gateway writes is the reasoning, where base64 decodes what
-- it encodes.
pub reasoning_item_text_lem :
    (base64 : Base64) (id text : String)
    → DecodesEncoded base64
    → reasoning_item_text base64 (response_reasoning_item base64 id text) ≡ text
unfolding reasoning_item_text response_reasoning_item get lookup
reasoning_item_text_lem base64 id text law =
    rw (stashed_text base64 text, stashed_some base64 text, decode-encode base64 text law)
      (elim (Bool-cases (text === "")) [
        | inl e ↦ rw ((eq_iff text "").0 e) (rw (no_content, blank_summary) refl)
        | inr e ↦ rw e refl
      ])
