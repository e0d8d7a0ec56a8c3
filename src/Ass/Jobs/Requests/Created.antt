-- ===== src/Ass/Jobs/Requests/Created.antt =====
-- internal/ass/jobs.go: a job that a request started is read back under its identifier.
use Prim.Native.Char.{code}
use Prim.Native.String.{◌++◌}
use aiyolo.Base.{
  ℕ, ◌+◌, ◌≡◌, refl, ap, ◌∙◌, subst, String, false, ◌||◌, ◌===◌, List, Option, none, some,
  Bool-cases, inl, inr, is_empty, if◌then◌else◌, if_intro, arith, eq_iff, leb,
}
use aiyolo.Dict.{lookup, string_key}
use aiyolo.Text.{trim_space}
use aiyolo.Text.Join.{trim_prefix, drop_prefix-append, has_suffix}
use aiyolo.Ass.Ids.{
  normalize_shell_session_id, kept_runes, is_dropped, rune_length, IsSafe,
  normalize_shell_session_id-IsSafe,
}
use aiyolo.Ass.Jobs.{JobStreamEvent, JobSession, JobInfo}
use aiyolo.Ass.Jobs.Registry.{
  JobRegistry, Started, started, start_failed, unless_done, Launch, start_job,
}
use aiyolo.Ass.Jobs.Registry.Single.{Places, start_job-IsStart}
use aiyolo.Ass.Jobs.Requests.{
  JobCreateRequest, answered, start_reply, handle_create_job, handle_job_item, info_reply,
}

-- A text without a slash does not end in one with a slash.
safe-has_suffix : (s : String) → IsSafe s → has_suffix s "/stream" ≡ false
unfolding has_suffix
safe-has_suffix String.[] h = refl
safe-has_suffix (String.◌∷◌ c s) h = elim (Bool-cases (String.◌∷◌ c s === "/stream")) [
  | inl e ↦ absurd ((subst IsSafe ((eq_iff (String.◌∷◌ c s) "/stream").0 e) h).0.1 refl)
  | inr e ↦ rw e (safe-has_suffix s h.1)
]

kept_runes_idem :
    (built : ℕ) (s : String) → kept_runes built (kept_runes built s) ≡ kept_runes built s
unfolding kept_runes
kept_runes_idem built String.[] = refl
kept_runes_idem built (String.◌∷◌ c s) =
    let grown = built + rune_length (code c) in
    if_intro (λ r. kept_runes built r ≡ r) (is_dropped (code c)) (λ _. kept_runes_idem built s)
      λ kept.
        if_intro (λ r. kept_runes built r ≡ r) (leb 80 grown) (λ full. rw (kept, full) refl)
          λ more. rw (kept, more) (ap (λ r. String.◌∷◌ c r) (kept_runes_idem grown s))

unless_done-some :
    (job : JobSession) (o : Option JobSession) → unless_done o ≡ some job → o ≡ some job
unless_done-some job none h = cc h
unless_done-some job (some found) h = ground (arith, h)

reply-found :
    (id : String) (status : ℕ) (info : JobInfo) (registry : JobRegistry)
    (result : Started × JobRegistry)
    → Places id registry result
    → start_reply result.0 ≡ answered status info
    → info_reply (lookup id result.1) ≡ answered 200 info
reply-found id status info registry (started job created, after) h e =
    rw (unless_done-some job (lookup id after) h.0) (cc e)
reply-found id status info registry (start_failed message, after) h e = cc e

item-safe :
    (id : String) (received : List JobStreamEvent) (registry : JobRegistry)
    → IsSafe id
    → normalize_shell_session_id id ≡ id
    → (id === "") ≡ false
    → handle_job_item "GET" ("/v1/jobs/" ++ id) received registry ≡ info_reply (lookup id registry)
unfolding handle_job_item trim_prefix
item-safe id received registry safe normal kept =
    rw
      (drop_prefix-append ("/v1/jobs/" ++ id) "/v1/jobs/" id, safe-has_suffix id safe, normal, kept)
      refl

normalize_idem :
    (value : String)
    → (let id = normalize_shell_session_id value in
        trim_space id ≡ id → normalize_shell_session_id id ≡ id)
unfolding normalize_shell_session_id
normalize_idem value trimmed = rw trimmed (kept_runes_idem 0 (trim_space value))

-- A job that a request to create it is answered with can be read under the normalized identifier, with
-- the same information, where that identifier has no blank of Unicode at its ends.
pub read_created :
    (root : String) (launch : String → JobCreateRequest → Launch) (request : JobCreateRequest)
    (registry : JobRegistry) (received : List JobStreamEvent) (status : ℕ) (info : JobInfo)
    → trim_space (normalize_shell_session_id request.id) ≡ normalize_shell_session_id request.id
    → (handle_create_job root launch (some request) registry).0 ≡ answered status info
    → handle_job_item "GET"
        ("/v1/jobs/" ++ normalize_shell_session_id request.id)
        received
        (handle_create_job root launch (some request) registry).1
      ≡ answered 200 info
unfolding handle_create_job
read_created root launch request registry received status info trimmed made =
    let id : String = normalize_shell_session_id request.id in
    let place : String = if trim_space request.cwd === "" then root else trim_space request.cwd in
    let start = start_job (launch place request) id (trim_space request.kind) registry in
    elim (Bool-cases (id === "" || is_empty request.argv)) [
      | inl bad ↦ cc (rw bad at made)
      | inr good ↦ rw good (
          item-safe id received start.1 (normalize_shell_session_id-IsSafe request.id).0
            (normalize_idem request.id trimmed) (ground (arith, good))
          ∙ reply-found id status info registry start
              (start_job-IsStart (launch place request) id (trim_space request.kind)
                registry).places
              (rw good at made))
    ]
