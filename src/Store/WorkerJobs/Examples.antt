-- ===== src/Store/WorkerJobs/Examples.antt =====
-- An event that is appended to a running job.
use aiyolo.Base.{◌≡◌, refl, String, List, [], ◌∷◌, All, none, arith}
use aiyolo.Base.Int.{pos, ◌<ℤ◌, ◌+ℤ◌, wrap64}
use aiyolo.Text.{trim_space}
use aiyolo.Text.Keys.{join_nul}
use aiyolo.Dict.{lookup, insert, string_key}
use aiyolo.Store.State.{MemoryStore, ok}
use aiyolo.Domain.Workers.{WorkerInitJob, WorkerInitJobEvent}
use aiyolo.Store.WorkerJobs.{
  append_worker_init_job_event, append_trimmed, list_worker_init_job_events, events_of,
  trimmed_event, next_sequence, latest_sequence, stored_event, worker_init_job_storage_key,
}
use aiyolo.Store.WorkerJobs.Sequence.{append-list, key}
use aiyolo.Fixtures.{noon, store_1}

abbrev job_1 : WorkerInitJob
job_1 = record {
  id = "j1";
  worker_id = "w1";
  action = "bootstrap";
  status = "running";
  triggered_by = "";
  log_summary = "";
  last_error = "";
  created_at = noon;
  updated_at = noon;
  started_at = none;
  completed_at = none;
}

abbrev first_event : WorkerInitJobEvent
first_event = record {
  worker_id = "w1";
  job_id = "j1";
  sequence = pos 7;
  level = "info";
  message = "started";
  created_at = noon;
}

abbrev written_event : WorkerInitJobEvent
written_event = record first_event { sequence = pos 0; level = " "; message = "done " }

-- The key of the job's events.
abbrev job_key : String
job_key = key (trimmed_event written_event)

abbrev store_jobs : MemoryStore
store_jobs = record store_1 {
  worker_jobs = (job_key, job_1) ∷ [];
  worker_job_events = (job_key, first_event ∷ []) ∷ [];
}

abbrev store_appended : MemoryStore
store_appended = record store_jobs {
  worker_job_events =
      (
        job_key,
        first_event ∷ stored_event noon (trimmed_event written_event) (first_event ∷ []) ∷ [],
      )
      ∷ [];
}

abbrev old_events : List WorkerInitJobEvent
old_events = events_of job_key store_jobs

old_events_1 : old_events ≡ first_event ∷ []
unfolding events_of lookup trimmed_event trim_space worker_init_job_storage_key join_nul
old_events_1 = refl

next_1 : next_sequence (trimmed_event written_event).sequence old_events ≡ pos 8
unfolding events_of lookup trimmed_event trim_space worker_init_job_storage_key join_nul
    next_sequence latest_sequence wrap64 ◌+ℤ◌
next_1 = refl

appended_1 : append_worker_init_job_event noon written_event store_jobs ≡ ok store_appended
unfolding append_worker_init_job_event append_trimmed trimmed_event trim_space events_of lookup
    insert worker_init_job_storage_key join_nul
appended_1 = refl

append-list_example :
    let event = trimmed_event written_event in
    All (λ e. e.sequence <ℤ next_sequence event.sequence old_events) old_events
    × (list_worker_init_job_events event.worker_id event.job_id (pos 7) store_appended
        ≡ stored_event noon event old_events ∷ [])
unfolding trimmed_event
append-list_example =
    append-list noon written_event store_jobs store_appended (pos 7) appended_1
      (omega arith, omega arith) (omega arith) (rw old_events_1 (omega arith, tt))
      (rw old_events_1 (omega arith, tt)) (rw next_1 (omega arith))
