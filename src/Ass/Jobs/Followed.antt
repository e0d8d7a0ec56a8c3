-- ===== src/Ass/Jobs/Followed.antt =====
-- internal/ass/jobs.go: what a client that subscribes to a running job reads until the job ends.
use aiyolo.Base.{
  ℕ, suc, ◌+◌, ◌≤◌, ◌<◌, ◌≡◌, ◌≢◌, refl, ap, ◌∙◌, subst, String, true, false, not, ◌&&◌, ◌==◌,
  ◌===◌, List, [], ◌∷◌, ◌++◌, map, Option, none, some, length, is_empty, if_intro, if◌then◌else◌,
  arith,
}
use mathlib.Core.List.{append_assoc, append-nil}
use aiyolo.Base.Int.{is_zero_ℤ, ℤ}
use aiyolo.Dict.{lookup}
use aiyolo.Dict.Laws.{lookup-insert, lookup-insert_self, lookup-erase, lookup-append}
use aiyolo.Ass.Feed.{
  Bytes, Channel, capacity, number_key, new_channel, offer, close_all, lookup-offer_all,
  lookup-close_all, length-append, closed_held,
}
use aiyolo.Ass.Jobs.Steps.{JobStep, output, arrive, leave, step, run, outputs, Stays}
use aiyolo.Ass.Jobs.{
  JobStreamEvent, JobSession, Subscription, delta_event, sync_event, end_event, finish_job,
  append_delta, subscribe_job, unsubscribe_job, relayed, handle_job_stream,
}

-- A running job whose client has a channel with some events.
record Follows (id : ℕ) (waiting : List JobStreamEvent) (job : JobSession) : Type 0 where
  running : job.done ≡ false
  known : id ≤ job.next_sub_id
  held : lookup id job.subscribers ≡ some (record { waiting = waiting; closed = false })

append-Follows :
    (id b : ℕ) (bs : Bytes) (waiting : List JobStreamEvent) (job : JobSession)
    → length waiting < capacity
    → Follows id waiting job
    → Follows id (waiting ++ (delta_event (b ∷ bs) ∷ [])) (append_delta (b ∷ bs) job)
unfolding append_delta offer
append-Follows id b bs waiting job room f = record {
  running = f.running;
  known = f.known;
  held = lookup-offer_all (delta_event (b ∷ bs)) id job.subscribers ∙ rw f.held (ground arith);
}

append_nothing-Follows :
    (id : ℕ) (waiting : List JobStreamEvent) (job : JobSession)
    → Follows id waiting job
    → Follows id waiting (append_delta [] job)
unfolding append_delta
append_nothing-Follows id waiting job f = f

subscribe-Follows :
    (id : ℕ) (waiting : List JobStreamEvent) (job : JobSession)
    → Follows id waiting job
    → Follows id waiting (subscribe_job job).1
unfolding subscribe_job
subscribe-Follows id waiting job f =
    if_intro (λ (r : Subscription × JobSession). Follows id waiting r.1) job.done
      (λ h. absurd (cc (h, f.running)))
      λ _. record {
        running = f.running;
        known = omega (arith, f.known);
        held = ground (
          arith,
          f.known,
          f.held,
          lookup-insert (suc job.next_sub_id) id new_channel job.subscribers,
        );
      }

unsubscribe-Follows :
    (id other : ℕ) (waiting : List JobStreamEvent) (job : JobSession)
    → other ≢ id
    → Follows id waiting job
    → Follows id waiting (unsubscribe_job other job)
unfolding unsubscribe_job
unsubscribe-Follows id other waiting job ne f =
    if_intro (Follows id waiting) (other == 0) (λ _. f)
      λ _. record {
        running = f.running;
        known = f.known;
        held = ground (arith, ne, f.held, lookup-erase other id job.subscribers);
      }

-- The events of some output.
abbrev pub deltas : List Bytes → List JobStreamEvent
deltas writes = map delta_event writes

run-Follows :
    (id : ℕ) (steps : List JobStep) (waiting : List JobStreamEvent) (job : JobSession)
    → length waiting + length (outputs steps) ≤ capacity
    → Stays id steps
    → Follows id waiting job
    → Follows id (waiting ++ deltas (outputs steps)) (run steps job)
unfolding run step
run-Follows id [] waiting job room stays f = rw (append-nil waiting) f
run-Follows id (output [] ∷ steps) waiting job room stays f =
    run-Follows id steps waiting (append_delta [] job) room stays
      (append_nothing-Follows id waiting job f)
run-Follows id (output (b ∷ bs) ∷ steps) waiting job room stays f =
    let event = delta_event (b ∷ bs) in
    subst (λ w. Follows id w (run steps (append_delta (b ∷ bs) job)))
      (append_assoc waiting (event ∷ []) (deltas (outputs steps)))
      (run-Follows id steps (waiting ++ (event ∷ [])) (append_delta (b ∷ bs) job)
        (omega (arith, room, length-append waiting (event ∷ []))) stays
        (append-Follows id b bs waiting job (omega (arith, room)) f))
run-Follows id (arrive ∷ steps) waiting job room stays f =
    run-Follows id steps waiting (subscribe_job job).1 room stays
      (subscribe-Follows id waiting job f)
run-Follows id (leave other ∷ steps) waiting job room stays f =
    run-Follows id steps waiting (unsubscribe_job other job) room stays.1
      (unsubscribe-Follows id other waiting job stays.0 f)

-- The subscription itself.
subscribed-Follows :
    (job : JobSession) → job.done ≡ false → Follows (subscribe_job job).0.0 [] (subscribe_job job).1
unfolding subscribe_job
subscribed-Follows job running =
    if_intro (λ (r : Subscription × JobSession). Follows r.0.0 [] r.1) job.done
      (λ h. absurd (cc (h, running)))
      λ _. record {
        running = running;
        known = omega arith;
        held = lookup-insert_self (suc job.next_sub_id) new_channel job.subscribers;
      }

-- A channel after the end of its job.
finished-held :
    (id : ℕ) (exit_code : ℤ) (last_error : String) (waiting : List JobStreamEvent)
    (job : JobSession)
    → length waiting < capacity
    → Follows id waiting job
    → lookup id (finish_job exit_code last_error job).released
      ≡ some (record { waiting = waiting ++ (end_event exit_code last_error ∷ []); closed = true })
unfolding finish_job
finished-held id exit_code last_error waiting job room f =
    let event = end_event exit_code last_error in
    if_intro
      (λ (j : JobSession).
        lookup id j.released ≡ some (record { waiting = waiting ++ (event ∷ []); closed = true }))
      job.done (λ h. absurd (cc (h, f.running)))
      λ _.
        lookup-append id _ (close_all event job.subscribers) job.released
          (lookup-close_all event id job.subscribers ∙ closed_held event waiting f.held room)

abbrev pub received : Option (Channel JobStreamEvent) → List JobStreamEvent
received none = []
received (some c) = c.waiting

-- What a client is sent that subscribes to a job which then takes some steps and ends.
unfoldable pub followed : List JobStep → ℤ → String → JobSession → List JobStreamEvent
followed steps exit_code last_error job =
    let (id, replay, done) = (subscribe_job job).0 in
    let ended = finish_job exit_code last_error (run steps (subscribe_job job).1) in
    handle_job_stream job (received (lookup id ended.released))

length-deltas : (writes : List Bytes) → length (deltas writes) ≡ length writes
length-deltas [] = refl
length-deltas (bs ∷ writes) = omega (arith, length-deltas writes)

relayed-end :
    (exit_code : ℤ) (last_error : String)
    → relayed (end_event exit_code last_error ∷ []) ≡ end_event exit_code last_error ∷ []
unfolding relayed end_event
relayed-end exit_code last_error =
    if_intro (λ event. relayed (event ∷ []) ≡ event ∷ [])
      (not (is_zero_ℤ exit_code) && not (last_error === "")) (λ _. refl) (λ _. refl)

subscribe-running :
    (job : JobSession)
    → job.done ≡ false
    → (subscribe_job job).0 ≡ (suc job.next_sub_id, job.replay, false)
unfolding subscribe_job
subscribe-running job running = rw running refl

relayed-deltas :
    (writes : List Bytes) (exit_code : ℤ) (last_error : String)
    → relayed (deltas writes ++ (end_event exit_code last_error ∷ []))
      ≡ deltas writes ++ (end_event exit_code last_error ∷ [])
unfolding relayed
relayed-deltas [] exit_code last_error = relayed-end exit_code last_error
relayed-deltas (bs ∷ writes) exit_code last_error =
    ap (λ l. delta_event bs ∷ l) (relayed-deltas writes exit_code last_error)

-- A client that subscribes to a running job, and stays, is sent the replay, then every write of the
-- process in order and once, whoever else comes and goes, and last the event of the job's end, where at
-- most 127 writes that are not empty come before the end.
pub followed_lem :
    (job : JobSession) (steps : List JobStep) (exit_code : ℤ) (last_error : String)
    → job.done ≡ false
    → length (outputs steps) < capacity
    → Stays (subscribe_job job).0.0 steps
    → followed steps exit_code last_error job
      ≡ (if is_empty job.replay then [] else sync_event job.replay ∷ [])
        ++ (deltas (outputs steps) ++ (end_event exit_code last_error ∷ []))
unfolding followed handle_job_stream
followed_lem job steps exit_code last_error running room stays =
    let s = subscribe_job job in
    let writes = outputs steps in
    let last = end_event exit_code last_error in
    let opening : List JobStreamEvent =
      if is_empty job.replay then [] else sync_event job.replay ∷ [] in
    let f =
      run-Follows s.0.0 steps [] s.1 (omega (arith, room)) stays (subscribed-Follows job running) in
    let held =
      finished-held s.0.0 exit_code last_error (deltas writes) (run steps s.1)
        (omega (arith, room, length-deltas writes)) f in
    let sent = lookup s.0.0 (finish_job exit_code last_error (run steps s.1)).released in
    ap
      (λ (t : Subscription).
        (if is_empty t.1 then [] else sync_event t.1 ∷ [])
        ++ (if t.2 then end_event job.exit_code job.last_error ∷ [] else relayed (received sent)))
      (subscribe-running job running)
    ∙ ap (λ o. opening ++ relayed (received o)) held
    ∙ ap (λ l. opening ++ l) (relayed-deltas writes exit_code last_error)
