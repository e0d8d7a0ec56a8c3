-- ===== src/Ass/Examples.antt =====
-- Jobs and sessions to try the theorems on.
use aiyolo.Base.{All, ◌≤◌, ◌≡◌, refl, Bool, true, false, List, [], ◌∷◌, none, some, arith}
use aiyolo.Base.Int.{pos}
use aiyolo.Dict.{lookup, insert, string_key}
use aiyolo.Text.{trim_space}
use aiyolo.Ass.Ids.{
  byte_length, kept_runes, normalize_shell_session_id, IsSafe, normalize_shell_session_id-IsSafe,
}
use aiyolo.Ass.Feed.{Bytes, new_channel, keep_last}
use aiyolo.Ass.Jobs.{
  JobSession, sync_event, delta_event, end_event, subscribe_job, job_output_replay_limit, job_info,
}
use aiyolo.Ass.Jobs.Steps.{JobStep, output, arrive, leave, run, outputs}
use aiyolo.Ass.Jobs.Followed.{followed, followed_lem}
use aiyolo.Ass.Jobs.Replay.{joined, replay-run}
use aiyolo.Ass.Jobs.Registry.{
  Launch, started, directory, new_job, register_job, start_command, start_job,
}
use aiyolo.Ass.Jobs.Registry.Single.{IsStart, start_job-IsStart, register-register}
use aiyolo.Ass.Jobs.Requests.{JobCreateRequest, answered, handle_create_job, handle_job_item}
use aiyolo.Ass.Jobs.Requests.Created.{read_created}
use aiyolo.Ass.Output.{new_limited_output, write_each, IsLimited, write_each-IsLimited}
use aiyolo.Ass.Paths.{
  FileSystem, resolves_to, missing, resolve_existing, resolve_writable_parent, resolve_mutable_path,
  normalize_workspace_path,
}
use aiyolo.Ass.Paths.Inside.{Within, Keeps, resolved-Keeps}
use aiyolo.Ass.Paths.Local.{IsRelative, normalize_workspace_path-IsRelative}
use aiyolo.Ass.Shells.{ShellSession, output_event, record_event, numbers, send_all, mark_closed}
use aiyolo.Ass.Shells.Races.{broadcast_interrupted}
use aiyolo.Ass.Shells.Registry.{new_session, active_session, opened, register_session, forget}
use aiyolo.Ass.Shells.Registry.Lost.{closing, closed_over}

abbrev build : JobSession
build = record (new_job "build-1" "shell" "/run/aiyolo/jobs/build-1.log") {
  replay = 104 ∷ 105 ∷ [];
  output_size = pos 2;
  subscribers = (1, new_channel) ∷ [];
  next_sub_id = 1;
}

abbrev later_steps : List JobStep
later_steps = arrive ∷ output (33 ∷ []) ∷ output [] ∷ leave 1 ∷ output (10 ∷ []) ∷ []

followed_lem_example :
    followed later_steps (pos 1) "broken" build
    ≡ sync_event (104 ∷ 105 ∷ [])
      ∷ delta_event (33 ∷ [])
      ∷ delta_event (10 ∷ [])
      ∷ end_event (pos 1) "broken"
      ∷ []
unfolding subscribe_job
followed_lem_example =
    followed_lem build later_steps (pos 1) "broken" refl (omega arith) (λ e. omega (arith, e), tt)

replay-run_example :
    (run later_steps build).replay
    ≡ keep_last job_output_replay_limit (104 ∷ 105 ∷ joined (outputs later_steps))
replay-run_example = replay-run later_steps build (omega arith)

abbrev quiet_launch : Launch
quiet_launch = record {
  output_dir = directory "/run/aiyolo/jobs";
  open_error = none;
  start_error = none;
}

start_job-IsStart_example :
    IsStart "build-1"
      (("build-1", build) ∷ [])
      (start_job quiet_launch "build-1" "shell" (("build-1", build) ∷ []))
start_job-IsStart_example =
    start_job-IsStart quiet_launch "build-1" "shell" (("build-1", build) ∷ [])

register-register_example :
    register_job (new_job "build-1" "test" "/b") (register_job build []).1
    ≡ (started build false, ("build-1", build) ∷ [])
unfolding register_job lookup insert
register-register_example = register-register build (new_job "build-1" "test" "/b") [] refl refl

abbrev build_request : JobCreateRequest
build_request = record { id = " build-2/ "; kind = "shell"; argv = "make" ∷ []; cwd = "" }

-- The job that the request is answered with.
abbrev build_2 : JobSession
build_2 = new_job "build-2" "shell" "/run/aiyolo/jobs/build-2.log"

build_request_answered :
    (handle_create_job "/workspace" (λ place request. quiet_launch) (some build_request) []).0
    ≡ answered 201 (job_info build_2)
unfolding handle_create_job normalize_shell_session_id kept_runes trim_space start_job register_job
    start_command lookup insert
build_request_answered = refl

read_created_example :
    handle_job_item "GET" "/v1/jobs/build-2" []
      (handle_create_job "/workspace" (λ place request. quiet_launch) (some build_request) []).1
    ≡ answered 200 (job_info build_2)
unfolding normalize_shell_session_id kept_runes trim_space
read_created_example =
    read_created "/workspace" (λ place request. quiet_launch) build_request [] [] 201
      (job_info build_2) refl build_request_answered

normalize_shell_session_id-IsSafe_example :
    IsSafe (normalize_shell_session_id " ../a?b ")
    × (byte_length (normalize_shell_session_id " ../a?b ") ≤ 83)
normalize_shell_session_id-IsSafe_example = normalize_shell_session_id-IsSafe " ../a?b "

abbrev shared : ShellSession
shared = record (new_session "main" "/workspace") {
  subscribers = (1, new_channel) ∷ [];
  next_sub_id = 1;
}

broadcast_interrupted_example :
    send_all
      (output_event (104 ∷ []))
      (1 ∷ [])
      (mark_closed "Terminal closed" (record_event (output_event (104 ∷ [])) shared))
    ≡ none
unfolding numbers
broadcast_interrupted_example =
    broadcast_interrupted (output_event (104 ∷ [])) "Terminal closed" shared refl refl

closed_over_example :
    ((register_session (new_session "main" "/tmp") (closing "Terminal closed" shared [])).0
      ≡ opened (new_session "main" "/tmp") true)
    × (active_session "main"
          (register_session (new_session "main" "/tmp") (closing "Terminal closed" shared [])).1
        ≡ some (new_session "main" "/tmp"))
    × (lookup "main" (
          forget "main"
            (register_session (new_session "main" "/tmp") (closing "Terminal closed" shared [])).1)
        ≡ none)
closed_over_example = closed_over "Terminal closed" shared (new_session "main" "/tmp") [] refl refl

abbrev two_writes : List (Bool × Bytes)
two_writes = (false, 104 ∷ 105 ∷ []) ∷ (true, 33 ∷ 10 ∷ []) ∷ []

write_each-IsLimited_example :
    IsLimited (pos 3) two_writes (write_each two_writes (new_limited_output (pos 3)))
write_each-IsLimited_example = write_each-IsLimited (pos 3) two_writes

-- A workspace in which one link leads out.
abbrev linked : FileSystem
linked = record {
  eval_symlinks = λ path. resolves_to ("etc" ∷ []);
  mkdir_fails = λ path. false;
  stat_fails = λ path. false;
  is_directory = λ path. true;
  lstat = λ path. missing;
  is_symlink = λ path. false;
}

resolved-Keeps_example :
    Keeps ("work" ∷ []) (resolve_existing ("work" ∷ []) linked "link/passwd" false)
    × Keeps ("work" ∷ []) (resolve_writable_parent ("work" ∷ []) linked "link/new" true).0
    × All (Within ("work" ∷ [])) (resolve_writable_parent ("work" ∷ []) linked "link/new" true).1
    × Keeps ("work" ∷ []) (resolve_mutable_path ("work" ∷ []) linked "link/new")
resolved-Keeps_example = resolved-Keeps ("work" ∷ []) linked "link/passwd" "link/new" false true

normalize_workspace_path-IsRelative_example :
    IsRelative false (normalize_workspace_path " a//./b\\c " false)
normalize_workspace_path-IsRelative_example =
    normalize_workspace_path-IsRelative " a//./b\\c " false
