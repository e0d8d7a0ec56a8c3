-- ===== src/Gateway/Body/Usage/Cached.antt =====
-- The usage that is recorded for a response from the cache.
use aiyolo.Base.{
  ◌≡◌, refl, sym, subst, ◌⊎◌, ap, ◌∙◌, String, true, false, ◌===◌, List, [], ◌∷◌, Option, none,
  some, eq_iff, arith, Bool-cases, inl, inr, if◌then◌else◌,
}
use aiyolo.Base.Int.{pos, ◌+ℤ◌, wrap64}
use aiyolo.Dict.{insert, string_key}
use aiyolo.Domain.Protocols.{protocol_anthropic}
use aiyolo.Domain.Protocols.Distinct.{member}
use aiyolo.Domain.Usage.{UsageRecord}
use aiyolo.Json.{Map, get, as_map, dict, decoded}
use aiyolo.Json.Print.{int_literal}
use aiyolo.Json.Texts.{int_number}
use aiyolo.Json.Laws.{get-insert, entries-fields_of}
use aiyolo.Gateway.Body.Usage.{
  anthropic_usage, openai_usage, usage_object, usage_of_payload, parse_usage_from_json, zero_counts,
  anthropic_counts, openai_counts, zero_details, zeroed_usage, zero_usage_in_cached_response,
  cached_body_usage,
}

get-zero_counts :
    (keys : List String) (j : String) (u : Map)
    → get j (zero_counts keys u) ≡ (if member j keys then int_literal 0 else get j u)
unfolding zero_counts
get-zero_counts [] j u = refl
get-zero_counts (k ∷ ks) j u =
    rw (get-zero_counts ks j (insert k (int_literal 0) u), get-insert k j (int_literal 0) u)
      (ground arith)

-- The details of the prompt are no counts.
get-zero_details :
    (j : String) (details : Option Map) (u : Map)
    → ("prompt_tokens_details" === j) ≡ false
    → get j (zero_details details u) ≡ get j u
get-zero_details j none u h = refl
get-zero_details j (some details) u h =
    rw
      (
        get-insert "prompt_tokens_details" j
            (dict (zero_counts ("cached_tokens" ∷ "cache_write_tokens" ∷ []) details)) u,
        h,
      )
      refl

usage_found :
    (protocol : String) (payload u : Map)
    → as_map (get "usage" payload) ≡ some u
    → usage_object protocol payload ≡ some u
unfolding usage_object
usage_found protocol payload u h = rw (h, usage_object) refl

-- The usage of a payload that has a usage object.
usage_of_object :
    (protocol : String) (payload u : Map)
    → as_map (get "usage" payload) ≡ some u
    → usage_of_payload protocol payload
      ≡ (if protocol === protocol_anthropic then anthropic_usage u else openai_usage u)
unfolding usage_of_payload
usage_of_object protocol payload u h = rw (usage_found protocol payload u h, usage_of_payload) refl

written_usage :
    (protocol : String) (payload u : Map)
    → as_map (get "usage" (insert "usage" (dict u) payload)) ≡ some u
written_usage protocol payload u =
    rw (get-insert "usage" "usage" (dict u) payload) (ap (λ m. some m) (entries-fields_of u))

zeroed_payload :
    (protocol : String) (payload u : Map)
    → as_map (get "usage" payload) ≡ some u
    → zero_usage_in_cached_response (decoded payload) protocol
      ≡ some (insert "usage" (dict (zeroed_usage protocol u)) payload)
unfolding zero_usage_in_cached_response
zeroed_payload protocol payload u h = rw h refl

-- The usage of the body that is written for a payload with a usage object.
zeroed_body :
    (payload u : Map) (protocol : String)
    → as_map (get "usage" payload) ≡ some u
    → cached_body_usage (decoded payload) protocol
      ≡ record (if protocol === protocol_anthropic
          then anthropic_usage (zeroed_usage protocol u)
          else openai_usage (zeroed_usage protocol u)) { cost_micro_cents = pos 0 }
unfolding cached_body_usage parse_usage_from_json
zeroed_body payload u protocol h = rw (zeroed_payload protocol payload u h) (
    ap (λ (r : UsageRecord). record r { cost_micro_cents = pos 0 })
      (usage_of_object protocol (insert "usage" (dict (zeroed_usage protocol u)) payload)
        (zeroed_usage protocol u) (written_usage protocol payload (zeroed_usage protocol u))))

count_zero :
    (keys : List String) (j : String) (u : Map)
    → member j keys ≡ true
    → int_number (get j (zero_counts keys u)) ≡ pos 0
count_zero keys j u h = rw (get-zero_counts keys j u, h) refl

-- Anthropic's counts are all set to 0.
anthropic_zero :
    (u : Map)
    → ((anthropic_usage (zero_counts anthropic_counts u)).input_tokens ≡ pos 0)
      × ((anthropic_usage (zero_counts anthropic_counts u)).output_tokens ≡ pos 0)
      × ((anthropic_usage (zero_counts anthropic_counts u)).total_tokens ≡ pos 0)
unfolding anthropic_usage wrap64 ◌+ℤ◌
anthropic_zero u =
    let zero_of =
      λ (j : String) (m : member j anthropic_counts ≡ true). count_zero anthropic_counts j u m in
    (
      zero_of "input_tokens" refl,
      zero_of "output_tokens" refl,
      rw
          (
            zero_of "input_tokens" refl,
            zero_of "output_tokens" refl,
            zero_of "cache_creation_input_tokens" refl,
            zero_of "cache_read_input_tokens" refl,
          )
          refl,
    )

-- The other format keeps the counts that the Responses API has.
openai_zero :
    (u v : Map)
    → ((j : String) → member j openai_counts ≡ true → int_number (get j v) ≡ pos 0)
    → get "input_tokens" v ≡ get "input_tokens" u
    → get "output_tokens" v ≡ get "output_tokens" u
    → ((openai_usage v).input_tokens ≡ int_number (get "input_tokens" u))
      × ((openai_usage v).output_tokens ≡ int_number (get "output_tokens" u))
      × ((openai_usage v).total_tokens
          ≡ wrap64 (int_number (get "input_tokens" u) +ℤ int_number (get "output_tokens" u)))
unfolding openai_usage
openai_zero u v zero_of i o = (
  rw (zero_of "prompt_tokens" refl, i) refl,
  rw (zero_of "completion_tokens" refl, o) refl,
  rw
      (
        zero_of "prompt_tokens" refl,
        zero_of "completion_tokens" refl,
        zero_of "total_tokens" refl,
        i,
        o,
      )
      refl,
)

-- The zeroed usage in the format of OpenAI: the counts of chat completions are 0, and others as before.
openai_zeroed :
    (u : Map) (protocol : String)
    → (protocol === protocol_anthropic) ≡ false
    → (j : String) → ("prompt_tokens_details" === j) ≡ false
    → get j (zeroed_usage protocol u) ≡ (if member j openai_counts then int_literal 0 else get j u)
unfolding zeroed_usage
openai_zeroed u protocol h j d = rw h (
    get-zero_details j (as_map (get "prompt_tokens_details" u)) (zero_counts openai_counts u) d
    ∙ get-zero_counts openai_counts j u)

other_count :
    (j : String)
    → member j openai_counts ≡ true
    → (("prompt_tokens_details" === j) ≡ true) ⊎ (("prompt_tokens_details" === j) ≡ false)
    → ("prompt_tokens_details" === j) ≡ false
other_count j m (inl e) =
    cc (subst (λ s. member s openai_counts ≡ true) (sym ((eq_iff "prompt_tokens_details" j).0 e)) m)
other_count j m (inr e) = e

anthropic_zeroed :
    (u : Map) (protocol : String)
    → (protocol === protocol_anthropic) ≡ true
    → zeroed_usage protocol u ≡ zero_counts anthropic_counts u
unfolding zeroed_usage
anthropic_zeroed u protocol h = rw h refl

module _ (protocol : String) (u : Map) (h : (protocol === protocol_anthropic) ≡ false) where
  openai_count_zero :
      (j : String)
      → member j openai_counts ≡ true
      → int_number (get j (zeroed_usage protocol u)) ≡ pos 0
  openai_count_zero j m =
      let details : ("prompt_tokens_details" === j) ≡ false =
        other_count j m (Bool-cases ("prompt_tokens_details" === j)) in
      rw (openai_zeroed u protocol h j details, m) refl

-- The usage that is recorded for a cached body with a usage object. For Anthropic's protocol its counts
-- are 0. For the other protocol they are those that the body has under the names of the Responses API,
-- `input_tokens` and `output_tokens`, and their sum, which are only 0 where the body has none of these.
pub cached_body_usage_lem :
    (payload u : Map) (protocol : String)
    → as_map (get "usage" payload) ≡ some u
    → ((cached_body_usage (decoded payload) protocol).input_tokens
        ≡ (if protocol === protocol_anthropic then pos 0 else int_number (get "input_tokens" u)))
      × ((cached_body_usage (decoded payload) protocol).output_tokens
          ≡ (if protocol === protocol_anthropic then pos 0 else int_number (get "output_tokens" u)))
      × ((cached_body_usage (decoded payload) protocol).total_tokens ≡ (
          if protocol === protocol_anthropic
          then pos 0
          else wrap64 (int_number (get "input_tokens" u) +ℤ int_number (get "output_tokens" u))))
cached_body_usage_lem payload u protocol h =
    rw (zeroed_body payload u protocol h) (elim (Bool-cases (protocol === protocol_anthropic)) [
      | inl a ↦ rw a (rw (anthropic_zeroed u protocol a) (anthropic_zero u))
      | inr o ↦ rw o (
          openai_zero u (zeroed_usage protocol u) (openai_count_zero protocol u o)
            (openai_zeroed u protocol o "input_tokens" refl)
            (openai_zeroed u protocol o "output_tokens" refl))
    ])
