-- ===== src/Ass/Jobs.antt =====
-- internal/ass/jobs.go: the jobs of the server, their output and the clients that follow it. A method is
-- one step, as the job's mutex orders them. appendDelta and finish let it go before they send; only the
-- copy of the output and, after it, the end of the job call them, so that no other send comes between.
pub mod Steps
pub mod Followed
pub mod Replay
pub mod Registry
pub mod Requests
use aiyolo.Base.{
  ℕ, suc, ◌+◌, String, Bool, true, false, not, ◌&&◌, ◌||◌, ◌===◌, ◌==◌, List, [], ◌∷◌, ◌++◌, length,
  is_empty, Option, none, some, if◌then◌else◌,
}
use aiyolo.Base.Int.{is_zero_ℤ, ℤ, pos, ◌+ℤ◌, wrap64}
use aiyolo.Dict.{insert, erase}
use aiyolo.Text.{trim_space, to_lower, contains_text}
use aiyolo.Ass.Feed.{Bytes, Subscribers, number_key, new_channel, offer_all, close_all, keep_last}

abbrev pub job_output_replay_limit : ℕ
job_output_replay_limit = 4194304

pub record JobStreamEvent : Type 0 where
  pub event_type : String
  pub delta : Bytes
  pub is_done : Bool
  pub error : String

-- The fields of a job but for its process and its file. A channel that is closed leaves
-- `subscribers`; its reader holds it still, and `released` has it.
pub record JobSession : Type 0 where
  pub id : String
  pub kind : String
  pub output_path : String
  pub output_size : ℤ
  pub replay : Bytes
  pub done : Bool
  pub exit_code : ℤ
  pub last_error : String
  pub subscribers : Subscribers JobStreamEvent
  pub released : Subscribers JobStreamEvent
  pub next_sub_id : ℕ

pub record JobInfo : Type 0 where
  pub id : String
  pub kind : String
  pub active : Bool
  pub done : Bool
  pub output_size : ℤ
  pub exit_code : ℤ
  pub last_error : String

abbrev pub delta_event : Bytes → JobStreamEvent
delta_event delta = record { event_type = "delta"; delta = delta; is_done = false; error = "" }

abbrev pub sync_event : Bytes → JobStreamEvent
sync_event replay = record { event_type = "sync"; delta = replay; is_done = false; error = "" }

-- The event at the end of a job with an exit code and an error.
unfoldable pub end_event : ℤ → String → JobStreamEvent
end_event exit_code last_error =
    if not (is_zero_ℤ exit_code) && not (last_error === "")
    then record { event_type = "error"; delta = []; is_done = true; error = last_error }
    else record { event_type = "done"; delta = []; is_done = true; error = "" }

-- `finish`.
unfoldable pub finish_job : ℤ → String → JobSession → JobSession
finish_job exit_code last_error job = if job.done then job else record job {
  done = true;
  exit_code = exit_code;
  last_error = trim_space last_error;
  subscribers = [];
  released = close_all (end_event exit_code last_error) job.subscribers ++ job.released;
}

-- `appendDelta`.
unfoldable pub append_delta : Bytes → JobSession → JobSession
append_delta delta job = if is_empty delta then job else record job {
  replay = keep_last job_output_replay_limit (job.replay ++ delta);
  output_size = wrap64 (job.output_size +ℤ pos (length delta));
  subscribers = offer_all (delta_event delta) job.subscribers;
}

-- An error of a pipe or a file: one that is closed, or another by its message.
pub data IoError : Type 0 where
  already_closed : IoError
  other_error : String → IoError

-- `isJobPipeInfrastructureError`, of an error.
unfoldable pub is_pipe_infrastructure_error : IoError → Bool
is_pipe_infrastructure_error already_closed = true
is_pipe_infrastructure_error (other_error message) =
    contains_text (to_lower message) "closed pipe" || contains_text (to_lower message) "broken pipe"

-- `copyOutput`: the lines that are read, and the error after them where they do not end at the end of
-- the output.
unfoldable pub copy_output : List Bytes → Option IoError → JobSession → JobSession
copy_output [] none job = job
copy_output [] (some error) job =
    if is_pipe_infrastructure_error error then job else append_delta (10 ∷ []) job
copy_output (line ∷ lines) error job = copy_output lines error (append_delta line job)

-- How waiting for the process ends: without an error, with an exit status, or with an error.
pub data Waited : Type 0 where
  succeeded : Waited
  exited : ℤ → Waited
  wait_failed : IoError → Waited

abbrev error_message : IoError → String
error_message already_closed = "file already closed"
error_message (other_error message) = message

-- `waitAndClose`, after the process and the copy of its output have ended.
unfoldable pub wait_and_close : Waited → JobSession → JobSession
wait_and_close succeeded job = finish_job (pos 0) "" job
wait_and_close (exited exit_code) job = finish_job exit_code "" job
wait_and_close (wait_failed error) job =
    if is_pipe_infrastructure_error error
    then finish_job (pos 0) "" job
    else finish_job (pos 1) (error_message error) job

-- `info`.
unfoldable pub job_info : JobSession → JobInfo
job_info job = record {
  id = job.id;
  kind = job.kind;
  active = not job.done;
  done = job.done;
  output_size = job.output_size;
  exit_code = job.exit_code;
  last_error = job.last_error;
}

-- What `subscribe` returns: the number of the subscription, the replay, and whether the job is done.
abbrev pub Subscription : Type 0
Subscription = ℕ × Bytes × Bool

-- `subscribe`.
unfoldable pub subscribe_job : JobSession → Subscription × JobSession
subscribe_job job = if job.done then ((0, job.replay, true), job) else (
  (suc job.next_sub_id, job.replay, false),
  record job {
    next_sub_id = suc job.next_sub_id;
    subscribers = insert (suc job.next_sub_id) new_channel job.subscribers;
  },
)

-- `unsubscribe`.
unfoldable pub unsubscribe_job : ℕ → JobSession → JobSession
unsubscribe_job id job =
    if id == 0 then job else record job { subscribers = erase id job.subscribers }

-- The loop of `handleJobStream`: the events that it writes of those that it receives.
unfoldable pub relayed : List JobStreamEvent → List JobStreamEvent
relayed [] = []
relayed (event ∷ events) =
    let rest = relayed events in
    if event.is_done || event.event_type === "done" || event.event_type === "error"
    then event ∷ []
    else event ∷ rest

-- `handleJobStream`: what it writes to a client that it subscribes, where every write succeeds and
-- `received` is what then comes out of the channel until it is closed or the client leaves.
unfoldable pub handle_job_stream : JobSession → List JobStreamEvent → List JobStreamEvent
handle_job_stream job received =
    let (id, replay, done) = (subscribe_job job).0 in
    (if is_empty replay then [] else sync_event replay ∷ [])
    ++ (if done then end_event job.exit_code job.last_error ∷ [] else relayed received)
