-- ===== src/Ass/Jobs/Requests.antt =====
-- internal/ass/jobs.go: the requests that start, read, list and follow jobs.
pub mod Created
use aiyolo.Base.{
  ℕ, String, Bool, true, false, not, ◌||◌, ◌===◌, List, [], ◌∷◌, map, Option, none, some, is_empty,
  if◌then◌else◌,
}
use aiyolo.Dict.{lookup, values, string_key}
use aiyolo.Text.{trim_space, is_blank}
use aiyolo.Text.Join.{trim_prefix, has_suffix, trim_suffix}
use aiyolo.Ass.Ids.{normalize_shell_session_id}
use aiyolo.Ass.Jobs.{JobStreamEvent, JobSession, JobInfo, job_info, handle_job_stream}
use aiyolo.Ass.Jobs.Registry.{JobRegistry, Launch, Started, started, start_failed, start_job}

-- What the command of a job reads, its environment and its input, is left out.
pub record JobCreateRequest : Type 0 where
  pub id : String
  pub kind : String
  pub argv : List String
  pub cwd : String

-- The answer to a request: an error with its status, the information of a job, that of all, or the
-- events of one.
pub data Reply : Type 0 where
  refused : ℕ → String → String → Reply
  answered : ℕ → JobInfo → Reply
  listed : List JobInfo → Reply
  streamed : List JobStreamEvent → Reply

abbrev created_status : Bool → ℕ
created_status true = 201
created_status false = 200

abbrev pub start_reply : Started → Reply
start_reply (started job created) = answered (created_status created) (job_info job)
start_reply (start_failed message) = refused 500 "job_start_failed" message

module _ (root : String) (launch : String → JobCreateRequest → Launch) where
  -- The rest of `handleCreateJob`, with the identifier.
  abbrev pub create_with : String → JobCreateRequest → JobRegistry → Reply × JobRegistry
  create_with id request registry =
      let cwd = trim_space request.cwd in
      let place = if cwd === "" then root else cwd in
      let result = start_job (launch place request) id (trim_space request.kind) registry in
      (start_reply result.0, result.1)

  -- `handleCreateJob`: the request is missing where its body does not decode.
  unfoldable pub handle_create_job : Option JobCreateRequest → JobRegistry → Reply × JobRegistry
  handle_create_job none registry =
      (refused 400 "encoding_invalid" "job request is invalid", registry)
  handle_create_job (some request) registry =
      let id = normalize_shell_session_id request.id in
      if id === "" || is_empty request.argv
      then (refused 400 "job_invalid" "job id and argv are required", registry)
      else create_with id request registry

  -- `handleJobsCollection`.
  unfoldable pub handle_jobs_collection :
      String → Option JobCreateRequest → JobRegistry → Reply × JobRegistry
  handle_jobs_collection method request registry =
      if method === "GET"
      then (listed (map job_info (values registry)), registry)
      else if method === "POST"
      then handle_create_job request registry
      else (refused 405 "method_not_allowed" "method not allowed", registry)

abbrev pub info_reply : Option JobSession → Reply
info_reply none = refused 404 "job_not_found" "job was not found"
info_reply (some job) = answered 200 (job_info job)

abbrev stream_reply : List JobStreamEvent → Option JobSession → Reply
stream_reply received none = refused 404 "" "job was not found"
stream_reply received (some job) = streamed (handle_job_stream job received)

-- `handleJobItem`, where `received` is what comes out of the channel of a stream.
unfoldable pub handle_job_item : String → String → List JobStreamEvent → JobRegistry → Reply
handle_job_item method path received registry =
    let remainder = trim_prefix path "/v1/jobs/" in
    let id = normalize_shell_session_id remainder in
    let streamed_id = normalize_shell_session_id (trim_suffix remainder "/stream") in
    if has_suffix remainder "/stream"
    then stream_reply received (lookup streamed_id registry)
    else if id === ""
    then refused 400 "job_invalid" "job id is required"
    else if not (method === "GET")
    then refused 405 "method_not_allowed" "method not allowed"
    else info_reply (lookup id registry)
