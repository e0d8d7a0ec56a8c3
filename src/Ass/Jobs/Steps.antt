-- ===== src/Ass/Jobs/Steps.antt =====
-- internal/ass/jobs.go: the steps of a running job, each of which is a method under the job's mutex.
use aiyolo.Base.{ℕ, ◌≢◌, List, [], ◌∷◌}
use aiyolo.Ass.Feed.{Bytes}
use aiyolo.Ass.Jobs.{JobSession, append_delta, subscribe_job, unsubscribe_job}

-- What happens to a running job: output of its process, and clients that come and go.
pub data JobStep : Type 0 where
  output : Bytes → JobStep
  arrive : JobStep
  leave : ℕ → JobStep

unfoldable pub step : JobStep → JobSession → JobSession
step (output delta) job = append_delta delta job
step arrive job = (subscribe_job job).1
step (leave id) job = unsubscribe_job id job

unfoldable pub run : List JobStep → JobSession → JobSession
unfolding step
run [] job = job
run (s ∷ steps) job = run steps (step s job)

-- The output of some steps, by the write.
abbrev pub outputs : List JobStep → List Bytes
outputs [] = []
outputs (output [] ∷ steps) = outputs steps
outputs (output (b ∷ bs) ∷ steps) = (b ∷ bs) ∷ outputs steps
outputs (arrive ∷ steps) = outputs steps
outputs (leave id ∷ steps) = outputs steps

-- The client with a number does not leave.
abbrev pub Stays : ℕ → List JobStep → Type 0
Stays id [] = Unit
Stays id (output delta ∷ steps) = Stays id steps
Stays id (arrive ∷ steps) = Stays id steps
Stays id (leave other ∷ steps) = (other ≢ id) × Stays id steps
