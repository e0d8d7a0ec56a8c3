-- ===== src/Store/WorkerJobs.antt =====
-- internal/storage/workers_memory.go: the jobs that set up a worker, and their events.
pub mod Sequence
mod Examples
use aiyolo.Base.{
  ℕ, String, Bool, true, false, not, ◌===◌, ◌==◌, ◌&&◌, ◌||◌, List, [], ◌∷◌, ◌++◌, filter, length,
  take, Option, none, some, if◌then◌else◌,
}
use aiyolo.Base.Int.{ℤ, pos, ◌+ℤ◌, wrap64, pos_part, ltb_ℤ, leb_ℤ}
use aiyolo.Text.{trim_space, to_lower, str_lt}
use aiyolo.Text.Keys.{join_nul}
use aiyolo.Dict.{Dict, lookup, insert, values, string_key}
use aiyolo.Sort.{sort_stable}
use aiyolo.Domain.Time.{Time, or_now, is_zero, after}
use aiyolo.Domain.Workers.{
  WorkerServer, WorkerInitJob, WorkerInitJobEvent, normalize_worker_init_job,
}
use aiyolo.Store.State.{
  MemoryStore, Result, ok, err, not_found, invalid, or_not_found, ◌>>=◌, ◌>>◌, fail_if,
}

-- `workerInitJobStorageKey`.
unfoldable pub worker_init_job_storage_key : String → String → String
worker_init_job_storage_key worker_id job_id = join_nul (trim_space worker_id) (trim_space job_id)

abbrev is_missing {ℓ} : {A : Type ℓ} → Option A → Bool
is_missing none = true
is_missing (some a) = false

abbrev or_invalid {ℓ} : {A : Type ℓ} → Option A → Result A
or_invalid none = err invalid
or_invalid (some a) = ok a

abbrev created_before : Option WorkerInitJob → Time → Time
created_before none t = t
created_before (some existing) t = if is_zero t then existing.created_at else t

-- `UpsertWorkerInitJob`.
unfoldable pub upsert_worker_init_job : Time → WorkerInitJob → MemoryStore → Result MemoryStore
upsert_worker_init_job clock job s = do
  normalized ← or_invalid (normalize_worker_init_job job)
  fail_if (is_missing (lookup normalized.worker_id s.workers)) not_found
  let key = worker_init_job_storage_key normalized.worker_id normalized.id
  let kept = created_before (lookup key s.worker_jobs) normalized.created_at
  let stored = record normalized { created_at = or_now clock kept; updated_at = clock }
  ok (record s { worker_jobs = insert key stored s.worker_jobs })

-- The order of `ListWorkerInitJobs`.
pub job_less : WorkerInitJob → WorkerInitJob → Bool
job_less a b =
    if not (a.updated_at == b.updated_at)
    then after a.updated_at b.updated_at
    else if not (a.created_at == b.created_at)
    then after a.created_at b.created_at
    else str_lt a.id b.id

-- `ListWorkerInitJobs`.
unfoldable pub list_worker_init_jobs : String → ℤ → MemoryStore → List WorkerInitJob
list_worker_init_jobs worker_id limit s =
    let items =
      sort_stable job_less
        (filter (λ job. job.worker_id === trim_space worker_id) (values s.worker_jobs)) in
    if ltb_ℤ (pos 0) limit && ltb_ℤ limit (pos (length items))
    then take (pos_part limit) items
    else items

-- `GetWorkerInitJob`.
unfoldable pub get_worker_init_job : String → String → MemoryStore → Result WorkerInitJob
get_worker_init_job worker_id job_id s =
    or_not_found (lookup (worker_init_job_storage_key worker_id job_id) s.worker_jobs)

abbrev pub or_no_events : Option (List WorkerInitJobEvent) → List WorkerInitJobEvent
or_no_events none = []
or_no_events (some events) = events

-- `store.workerJobEvents[key]`.
unfoldable pub events_of : String → MemoryStore → List WorkerInitJobEvent
events_of key s = or_no_events (lookup key s.worker_job_events)

-- The trimmed fields and the default level of `AppendWorkerInitJobEvent`.
unfoldable pub trimmed_event : WorkerInitJobEvent → WorkerInitJobEvent
trimmed_event event =
    let level = to_lower (trim_space event.level) in
    record event {
      worker_id = trim_space event.worker_id;
      job_id = trim_space event.job_id;
      level = if level === "" then "info" else level;
      message = trim_space event.message;
    }

-- The loop for the greatest sequence number.
pub latest_sequence : ℤ → List WorkerInitJobEvent → ℤ
latest_sequence n [] = n
latest_sequence n (event ∷ events) =
    latest_sequence (if ltb_ℤ n event.sequence then event.sequence else n) events

-- The sequence number that an event is stored with.
pub next_sequence : ℤ → List WorkerInitJobEvent → ℤ
next_sequence n events = if leb_ℤ n (pos 0) then wrap64 (latest_sequence n events +ℤ pos 1) else n

-- The event as it is stored behind the events of its job.
pub stored_event : Time → WorkerInitJobEvent → List WorkerInitJobEvent → WorkerInitJobEvent
stored_event clock event events = record event {
  sequence = next_sequence event.sequence events;
  created_at = or_now clock event.created_at;
}

-- `AppendWorkerInitJobEvent` behind the trimming.
pub append_trimmed : Time → WorkerInitJobEvent → MemoryStore → Result MemoryStore
append_trimmed clock event s = do
  fail_if (event.worker_id === "" || event.job_id === "") invalid
  fail_if (event.message === "") invalid
  let key = worker_init_job_storage_key event.worker_id event.job_id
  fail_if (is_missing (lookup key s.worker_jobs)) not_found
  let events = events_of key s
  ok (record s {
    worker_job_events =
        insert key (events ++ stored_event clock event events ∷ []) s.worker_job_events;
  })

-- `AppendWorkerInitJobEvent`.
unfoldable pub append_worker_init_job_event :
    Time → WorkerInitJobEvent → MemoryStore → Result MemoryStore
append_worker_init_job_event clock event s = append_trimmed clock (trimmed_event event) s

-- `ListWorkerInitJobEvents`.
unfoldable pub list_worker_init_job_events :
    String → String → ℤ → MemoryStore → List WorkerInitJobEvent
list_worker_init_job_events worker_id job_id after_sequence s =
    sort_stable (λ a b. ltb_ℤ a.sequence b.sequence)
      (filter (λ event. not (leb_ℤ event.sequence after_sequence))
        (events_of (worker_init_job_storage_key worker_id job_id) s))
