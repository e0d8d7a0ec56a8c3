-- ===== src/Gateway/Errors.antt =====
-- internal/gateway/handlers.go: the error types of the two wire formats, and the statuses that an
-- attempt is retried on.
use aiyolo.Base.{
  ℕ, ◌≡◌, ◌⊎◌, String, Bool, false, not, ◌||◌, ◌===◌, ◌==◌, leb, arith, if◌then◌else◌,
}

-- `openAIErrorType`.
unfoldable pub openai_error_type : ℕ → String → String
openai_error_type status code =
    if code === "quota_exceeded"
    then "rate_limit_error"
    else if code === "not_allowed"
    then "permission_error"
    else if code === "upstream_error"
    then "api_error"
    else if status == 429
    then "rate_limit_error"
    else if status == 403
    then "permission_error"
    else if leb 500 status
    then "api_error"
    else "invalid_request_error"

-- `anthropicErrorType`.
unfoldable pub anthropic_error_type : ℕ → String → String
anthropic_error_type status code =
    if code === "missing_api_key" || code === "invalid_api_key"
    then "authentication_error"
    else if code === "quota_exceeded"
    then "rate_limit_error"
    else if code === "not_allowed"
    then "permission_error"
    else if code === "generation_not_found"
    then "not_found_error"
    else if code === "upstream_error"
    then "api_error"
    else if status == 401
    then "authentication_error"
    else if status == 429
    then "rate_limit_error"
    else if status == 403
    then "permission_error"
    else if status == 404
    then "not_found_error"
    else if leb 500 status
    then "api_error"
    else "invalid_request_error"

-- The two formats give an error one type, except that Anthropic's names failed authentication and
-- missing things where OpenAI's falls back on the status.
pub error_types-agree :
    (status : ℕ) (code : String)
    → (openai_error_type status code ≡ anthropic_error_type status code)
      ⊎ (anthropic_error_type status code ≡ "authentication_error")
      ⊎ (anthropic_error_type status code ≡ "not_found_error")
unfolding openai_error_type anthropic_error_type
error_types-agree status code = ground arith

-- `retryableUpstreamStatus`.
unfoldable pub retryable_upstream_status : ℕ → Bool
retryable_upstream_status status =
    status == 408 || status == 429 || status == 502 || status == 503 || status == 504

-- `failureClassFromStatus`.
unfoldable pub failure_class_from_status : ℕ → String
failure_class_from_status status =
    if status == 429
    then "rate_limited"
    else if leb 500 status
    then "upstream_5xx"
    else if leb 400 status
    then "upstream_4xx"
    else ""

-- `shouldFallbackResponsesToChat`.
unfoldable pub should_fallback_responses_to_chat : String → ℕ → Bool
should_fallback_responses_to_chat endpoint status =
    if not (endpoint === "/v1/responses") then false else status == 404 || status == 405
