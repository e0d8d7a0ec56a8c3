-- ===== src/Store/WorkerJobs/Sequence.antt =====
-- The events of a job are numbered in the order in which they are appended, and a reader that asks for
-- those after the last one it has seen gets the new ones.
use aiyolo.Base.{
  ◌≡◌, refl, ap, String, true, not, List, [], ◌∷◌, ◌++◌, All, filter, arith, inl, inr, Bool-cases,
}
use aiyolo.Base.Int.{
  ℤ, pos, negsuc, ◌+ℤ◌, wrap64_of_IsInt64, IsInt64, ◌≤ℤ◌, ◌<ℤ◌, ltb_ℤ, leb_ℤ, int_laws,
}
use aiyolo.Dict.{insert, string_key}
use aiyolo.Dict.Laws.{lookup-insert_self}
use aiyolo.Sort.{sort_stable, insert_sorted}
use aiyolo.Domain.Time.{Time}
use aiyolo.Domain.Workers.{WorkerInitJobEvent}
use aiyolo.Store.State.{MemoryStore, ok}
use aiyolo.Store.WorkerJobs.{
  worker_init_job_storage_key, events_of, or_no_events, trimmed_event, append_worker_init_job_event,
  latest_sequence, next_sequence, stored_event, append_trimmed, list_worker_init_job_events,
}

abbrev pub last_sequence : ℤ
last_sequence = pos 9223372036854775807

-- Every event has a number below the greatest one.
abbrev pub Room : List WorkerInitJobEvent → Type 0
Room events = All (λ event. event.sequence <ℤ last_sequence) events

-- A number that is not below some start nor below any event, and has one above it.
abbrev Latest : ℤ → List WorkerInitJobEvent → ℤ → Type 0
Latest n events m = (n ≤ℤ m) × (m <ℤ last_sequence) × All (λ event. event.sequence ≤ℤ m) events

latest_sequence-Latest :
    (n : ℤ) (events : List WorkerInitJobEvent) (m : ℤ)
    → n <ℤ last_sequence
    → Room events
    → latest_sequence n events ≡ m
    → Latest n events m
unfolding latest_sequence
latest_sequence-Latest n [] m h room e = (ground arith, ground arith, tt)
latest_sequence-Latest n (event ∷ events) m h room e = elim (Bool-cases (ltb_ℤ n event.sequence)) [
  | inl later ↦
      let b : Latest event.sequence events m =
        latest_sequence-Latest event.sequence events m room.0 room.1 (rw later at e) in
      (ground (arith, b.0, later), b.1, (b.0, b.2))
  | inr earlier ↦
      let b : Latest n events m = latest_sequence-Latest n events m h room.1 (rw earlier at e) in
      (b.0, b.1, (ground (arith, b.0, earlier), b.2))
]

All-below :
    (m k : ℤ) (events : List WorkerInitJobEvent)
    → m <ℤ k
    → All (λ event. event.sequence ≤ℤ m) events
    → All (λ event. event.sequence <ℤ k) events
All-below m k [] h all = tt
All-below m k (event ∷ events) h all = (omega (arith, all.0, h), All-below m k events h all.1)

succ-IsInt64 : (n m : ℤ) → IsInt64 n → n ≤ℤ m → m <ℤ last_sequence → IsInt64 (m +ℤ pos 1)
unfolding ◌+ℤ◌
succ-IsInt64 n (pos k) int low high = ground arith
succ-IsInt64 n (negsuc k) int low high = ground arith

-- An event that is given no number gets one above every event of its job.
next_sequence-above :
    (n : ℤ) (events : List WorkerInitJobEvent)
    → IsInt64 n
    → n ≤ℤ pos 0
    → Room events
    → All (λ event. event.sequence <ℤ next_sequence n events) events
unfolding next_sequence
next_sequence-above n events int low room = rw lowest (
    rw (wrap64_of_IsInt64 (m +ℤ pos 1) fits) (All-below m (m +ℤ pos 1) events (omega int_laws) b.2))
  where
    lowest : leb_ℤ n (pos 0) ≡ true
    lowest = ground (arith, low)

    m : ℤ
    m = latest_sequence n events

    b : Latest n events m
    b = latest_sequence-Latest n events m (omega (arith, low)) room refl

    fits : IsInt64 (m +ℤ pos 1)
    fits = succ-IsInt64 n m int b.0 b.1

-- Of some events that a reader has seen and a new one, the new one is listed.
filter-unseen :
    (seen : ℤ) (events : List WorkerInitJobEvent) (new : WorkerInitJobEvent)
    → All (λ event. event.sequence ≤ℤ seen) events
    → seen <ℤ new.sequence
    → filter (λ event. not (leb_ℤ event.sequence seen)) (events ++ new ∷ []) ≡ new ∷ []
unfolding filter
filter-unseen seen [] new all h = ground (arith, h)
filter-unseen seen (event ∷ events) new all h =
    ground (arith, all.0, filter-unseen seen events new all.1 h)

-- The key of the events of an event's job.
abbrev pub key : WorkerInitJobEvent → String
key event = worker_init_job_storage_key event.worker_id event.job_id

module _ (clock : Time) (event : WorkerInitJobEvent) (s : MemoryStore) where
  abbrev appended : MemoryStore
  appended = record s {
    worker_job_events =
        insert (key event)
          (events_of (key event) s ++ stored_event clock event (events_of (key event) s) ∷ [])
          s.worker_job_events;
  }

  append_trimmed-appended :
      (s' : MemoryStore) → append_trimmed clock event s ≡ ok s' → s' ≡ appended
  unfolding append_trimmed
  append_trimmed-appended s' h = ground arith

  append_trimmed-events :
      (s' : MemoryStore)
      → append_trimmed clock event s ≡ ok s'
      → events_of (key event) s'
        ≡ events_of (key event) s ++ stored_event clock event (events_of (key event) s) ∷ []
  unfolding events_of
  append_trimmed-events s' h = rw (append_trimmed-appended s' h) (
      ap or_no_events (
        lookup-insert_self (key event)
          (events_of (key event) s ++ stored_event clock event (events_of (key event) s) ∷ [])
          s.worker_job_events))

-- An event that comes without a number is stored behind the events of its job, under a number above
-- theirs, as long as these leave room for one; and a reader that has seen all of them, and asks for
-- those after the number it has seen last, is given exactly the new event.
pub append-list :
    (clock : Time) (written : WorkerInitJobEvent) (s s' : MemoryStore) (seen : ℤ)
    → let event = trimmed_event written in
      let events = events_of (key event) s in
      append_worker_init_job_event clock written s ≡ ok s'
      → IsInt64 event.sequence
      → event.sequence ≤ℤ pos 0
      → Room events
      → All (λ e. e.sequence ≤ℤ seen) events
      → seen <ℤ next_sequence event.sequence events
      → All (λ e. e.sequence <ℤ next_sequence event.sequence events) events
        × (list_worker_init_job_events event.worker_id event.job_id seen s'
            ≡ stored_event clock event events ∷ [])
unfolding append_worker_init_job_event list_worker_init_job_events sort_stable insert_sorted
    stored_event
append-list clock written s s' seen h int low room all new = (
  next_sequence-above event.sequence (events_of (key event) s) int low room,
  rw (append_trimmed-events clock event s s' h) (
      rw
        (filter-unseen seen (events_of (key event) s)
          (stored_event clock event (events_of (key event) s)) all new)
        refl),
)
  where
    event : WorkerInitJobEvent
    event = trimmed_event written
