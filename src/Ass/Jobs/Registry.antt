-- ===== src/Ass/Jobs/Registry.antt =====
-- internal/ass/jobs.go: the registry of the jobs, and the requests that start and read one.
pub mod Single
use Prim.Native.String.{◌++◌ as join}
use aiyolo.Base.{
  ℕ, ◌≡◌, ◌≢◌, refl, sym, ap, ◌∙◌, String, Bool, true, false, not, ◌||◌, ◌===◌, List, [], ◌∷◌, map,
  Option, none, some, Option-cases, inl, inr, is_empty, if◌then◌else◌, if_intro, arith, eq_iff,
}
use aiyolo.Base.Int.{pos}
use aiyolo.Dict.{Dict, lookup, insert, erase, values, string_key}
use aiyolo.Dict.Laws.{lookup-insert, lookup-insert_self, lookup-insert_ne, lookup-erase}
use aiyolo.Text.{trim_space, is_blank}
use aiyolo.Ass.Ids.{normalize_shell_session_id}
use aiyolo.Ass.Jobs.{JobSession, JobInfo, job_info}

abbrev pub JobRegistry : Type 0
JobRegistry = Dict String JobSession

-- `existing != nil && !existing.isDone()`
abbrev pub unless_done : Option JobSession → Option JobSession
unless_done none = none
unless_done (some job) = if job.done then none else some job

abbrev pub running_job : String → JobRegistry → Option JobSession
running_job id registry = unless_done (lookup id registry)

-- What the system answers to a start: the directory of the outputs or an error, and the error of
-- opening the file and of starting the command, where there is one.
pub data Directory : Type 0 where
  directory : String → Directory
  no_directory : String → Directory

pub record Launch : Type 0 where
  pub output_dir : Directory
  pub open_error : Option String
  pub start_error : Option String

-- The job and whether it is new, or an error.
pub data Started : Type 0 where
  started : JobSession → Bool → Started
  start_failed : String → Started

-- `filepath.Join(outputDir, id+".log")`, where the directory is a clean path.
abbrev pub output_path_of : String → String → String
output_path_of dir id = join dir (join "/" (join id ".log"))

abbrev pub new_job : String → String → String → JobSession
new_job id kind path = record {
  id = id;
  kind = kind;
  output_path = path;
  output_size = pos 0;
  replay = [];
  done = false;
  exit_code = pos 0;
  last_error = "";
  subscribers = [];
  released = [];
  next_sub_id = 0;
}

-- The second critical section of `start`: the job takes its place, unless another start has.
abbrev pub claim : JobSession → JobRegistry → Option JobSession → Started × JobRegistry
claim job registry (some existing) = (started existing false, registry)
claim job registry none = (started job true, insert job.id job registry)

unfoldable pub register_job : JobSession → JobRegistry → Started × JobRegistry
register_job job registry = claim job registry (running_job job.id registry)

-- `cmd.Start()`, for a job that took its place.
unfoldable pub start_command :
    Option String → String → Started × JobRegistry → Started × JobRegistry
start_command (some error) id (started job true, registry) = (start_failed error, erase id registry)
start_command (some error) id (started job false, registry) = (started job false, registry)
start_command (some error) id (start_failed message, registry) = (start_failed message, registry)
start_command none id result = result

unfoldable pub open_output :
    Launch → String → String → String → JobRegistry → Option String → Started × JobRegistry
open_output launch id kind dir registry (some error) = (start_failed error, registry)
open_output launch id kind dir registry none =
    start_command launch.start_error id
      (register_job (new_job id kind (output_path_of dir id)) registry)

unfoldable pub prepare : Launch → String → String → JobRegistry → Directory → Started × JobRegistry
unfolding open_output
prepare launch id kind registry (no_directory error) = (start_failed error, registry)
prepare launch id kind registry (directory dir) =
    open_output launch id kind dir registry launch.open_error

abbrev pub or_prepare :
    Launch → String → String → JobRegistry → Option JobSession → Started × JobRegistry
or_prepare launch id kind registry (some existing) = (started existing false, registry)
or_prepare launch id kind registry none = prepare launch id kind registry launch.output_dir

-- `start`, where no other request comes between its critical sections.
unfoldable pub start_job : Launch → String → String → JobRegistry → Started × JobRegistry
unfolding prepare
start_job launch id kind registry = or_prepare launch id kind registry (running_job id registry)
