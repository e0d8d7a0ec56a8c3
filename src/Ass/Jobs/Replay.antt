-- ===== src/Ass/Jobs/Replay.antt =====
-- internal/ass/jobs.go: the replay of a job is the end of its output, and its size is counted.
use aiyolo.Base.{ℕ, ◌≤◌, ◌≡◌, sym, ap, ◌∙◌, List, [], ◌∷◌, ◌++◌, length, arith}
use mathlib.Core.List.{append_assoc, append-nil}
use aiyolo.Ass.Feed.{
  Bytes, number_key, keep_last, keep_last-append, keep_last-short, keep_last-length,
}
use aiyolo.Ass.Jobs.{
  JobSession, job_output_replay_limit, append_delta, subscribe_job, unsubscribe_job,
}
use aiyolo.Ass.Jobs.Steps.{JobStep, output, arrive, leave, step, run, outputs}

-- All the output of some steps.
unfoldable pub joined : List Bytes → Bytes
joined [] = []
joined (bs ∷ writes) = bs ++ joined writes

replay-subscribe : (job : JobSession) → (subscribe_job job).1.replay ≡ job.replay
unfolding subscribe_job
replay-subscribe job = ground arith

replay-unsubscribe : (id : ℕ) (job : JobSession) → (unsubscribe_job id job).replay ≡ job.replay
unfolding unsubscribe_job
replay-unsubscribe id job = ground arith

-- The replay of a job is the last 4 MiB of its output: what a job holds after any steps is what
-- cutting the whole output once leaves of it.
pub replay-run :
    (steps : List JobStep) (job : JobSession)
    → length job.replay ≤ job_output_replay_limit
    → (run steps job).replay
      ≡ keep_last job_output_replay_limit (job.replay ++ joined (outputs steps))
unfolding run step joined append_delta
replay-run [] job h = sym (
    ap (keep_last job_output_replay_limit) (append-nil job.replay)
    ∙ keep_last-short job_output_replay_limit job.replay h)
replay-run (output [] ∷ steps) job h = replay-run steps job h
replay-run (output (b ∷ bs) ∷ steps) job h =
    let later = joined (outputs steps) in
    replay-run steps (append_delta (b ∷ bs) job)
      (keep_last-length job_output_replay_limit (job.replay ++ (b ∷ bs)))
    ∙ keep_last-append job_output_replay_limit (job.replay ++ (b ∷ bs)) later
    ∙ ap (keep_last job_output_replay_limit) (append_assoc job.replay (b ∷ bs) later)
replay-run (arrive ∷ steps) job h =
    replay-run steps (subscribe_job job).1 (rw (replay-subscribe job) h)
    ∙ ap (λ r. keep_last job_output_replay_limit (r ++ joined (outputs steps)))
        (replay-subscribe job)
replay-run (leave id ∷ steps) job h =
    replay-run steps (unsubscribe_job id job) (rw (replay-unsubscribe id job) h)
    ∙ ap (λ r. keep_last job_output_replay_limit (r ++ joined (outputs steps)))
        (replay-unsubscribe id job)
