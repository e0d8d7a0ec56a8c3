-- ===== src/Ass/Jobs/Registry/Single.antt =====
-- internal/ass/jobs.go `start`: one identifier has one running job.
use aiyolo.Base.{
  ◌≡◌, ◌≢◌, refl, sym, ap, ◌∙◌, String, Bool, true, false, Option, none, some, arith, eq_iff,
}
use aiyolo.Dict.{lookup, insert, erase, string_key}
use aiyolo.Dict.Laws.{lookup-insert_self, lookup-insert_ne, lookup-erase}
use aiyolo.Ass.Jobs.{JobSession}
use aiyolo.Ass.Jobs.Registry.{
  JobRegistry, unless_done, running_job, Directory, directory, no_directory, Launch, Started,
  started, start_failed, new_job, output_path_of, claim, register_job, start_command, open_output,
  prepare, or_prepare, start_job,
}

abbrev pub is_free : Option JobSession → Bool
is_free none = true
is_free (some job) = false

-- What a start of a job under an identifier leads to.
abbrev pub Places : String → JobRegistry → Started × JobRegistry → Type 0
Places id registry (started job created, after) =
    (running_job id after ≡ some job) × (created ≡ is_free (running_job id registry))
Places id registry (start_failed message, after) = running_job id after ≡ none

-- The other jobs stay.
abbrev pub KeepsOthers : String → JobRegistry → JobRegistry → Type 0
KeepsOthers id registry after =
    (other : String) → other ≢ id → lookup other after ≡ lookup other registry

pub record IsStart (id : String) (registry : JobRegistry) (result : Started × JobRegistry)
    : Type 0 where
  pub places : Places id registry result
  pub keeps : KeepsOthers id registry result.1

insert-keeps :
    (id : String) (job : JobSession) (registry : JobRegistry)
    → KeepsOthers id registry (insert id job registry)
insert-keeps id job registry other ne = lookup-insert_ne id other job registry (λ e. ne (sym e))

erase-keeps :
    (id : String) (job : JobSession) (registry : JobRegistry)
    → KeepsOthers id registry (erase id (insert id job registry))
erase-keeps id job registry other ne = ground (
  arith,
  ne,
  eq_iff id other,
  lookup-erase id other (insert id job registry),
  insert-keeps id job registry other ne,
)

erase-free : (id : String) (registry : JobRegistry) → running_job id (erase id registry) ≡ none
erase-free id registry = ground (arith, eq_iff id id, lookup-erase id id registry)

register-IsStart :
    (job : JobSession) (registry : JobRegistry) (o : Option JobSession)
    → running_job job.id registry ≡ o
    → job.done ≡ false
    → IsStart job.id registry (claim job registry o)
register-IsStart job registry (some existing) found fresh = record {
  places = (found, sym (ap is_free found));
  keeps = λ other ne. refl;
}
register-IsStart job registry none found fresh = record {
  places = (
    ap unless_done (lookup-insert_self job.id job registry) ∙ rw fresh refl,
    sym (ap is_free found),
  );
  keeps = insert-keeps job.id job registry;
}

command-IsStart :
    (error : Option String) (job : JobSession) (registry : JobRegistry) (o : Option JobSession)
    → running_job job.id registry ≡ o
    → job.done ≡ false
    → IsStart job.id registry (start_command error job.id (claim job registry o))
unfolding start_command
command-IsStart none job registry o found fresh = register-IsStart job registry o found fresh
command-IsStart (some error) job registry (some existing) found fresh =
    register-IsStart job registry (some existing) found fresh
command-IsStart (some error) job registry none found fresh = record {
  places = erase-free job.id (insert job.id job registry);
  keeps = erase-keeps job.id job registry;
}

open-IsStart :
    (launch : Launch) (id kind dir : String) (registry : JobRegistry) (error : Option String)
    → running_job id registry ≡ none
    → IsStart id registry (open_output launch id kind dir registry error)
unfolding open_output register_job
open-IsStart launch id kind dir registry (some error) free = record {
  places = free;
  keeps = λ other ne. refl;
}
open-IsStart launch id kind dir registry none free =
    command-IsStart launch.start_error (new_job id kind (output_path_of dir id)) registry
      (running_job id registry) refl refl

prepare-IsStart :
    (launch : Launch) (id kind : String) (registry : JobRegistry) (dir : Directory)
    → running_job id registry ≡ none
    → IsStart id registry (prepare launch id kind registry dir)
unfolding prepare
prepare-IsStart launch id kind registry (no_directory error) free = record {
  places = free;
  keeps = λ other ne. refl;
}
prepare-IsStart launch id kind registry (directory dir) free =
    open-IsStart launch id kind dir registry launch.open_error free

or_prepare-IsStart :
    (launch : Launch) (id kind : String) (registry : JobRegistry) (o : Option JobSession)
    → running_job id registry ≡ o
    → IsStart id registry (or_prepare launch id kind registry o)
or_prepare-IsStart launch id kind registry (some existing) found = record {
  places = (found, sym (ap is_free found));
  keeps = λ other ne. refl;
}
or_prepare-IsStart launch id kind registry none found =
    prepare-IsStart launch id kind registry launch.output_dir found

-- A start returns the job that then runs under the identifier, and says that it is new exactly where
-- none ran before; where it fails, none runs under it; the jobs under other identifiers stay.
pub start_job-IsStart :
    (launch : Launch) (id kind : String) (registry : JobRegistry)
    → IsStart id registry (start_job launch id kind registry)
unfolding start_job
start_job-IsStart launch id kind registry =
    or_prepare-IsStart launch id kind registry (running_job id registry) refl

abbrev pub registered : Started → Started
registered (started job created) = started job false
registered (start_failed message) = start_failed message

claim-claim :
    (first second : JobSession) (registry : JobRegistry) (o : Option JobSession)
    → first.id ≡ second.id
    → first.done ≡ false
    → running_job first.id registry ≡ o
    → register_job second (claim first registry o).1
      ≡ (registered (claim first registry o).0, (claim first registry o).1)
unfolding register_job
claim-claim first second registry (some existing) same fresh found =
    ap (claim second registry) (ap (λ id. running_job id registry) (sym same) ∙ found)
claim-claim first second registry none same fresh found =
    let after = insert first.id first registry in
    ap (claim second after) (
      ap (λ id. running_job id after) (sym same)
      ∙ (register-IsStart first registry none found fresh).places.0)

-- Two starts of one identifier that have both found no running job register one job between them:
-- the second is answered with the first's, which is not new, and changes nothing.
pub register-register :
    (first second : JobSession) (registry : JobRegistry)
    → first.id ≡ second.id
    → first.done ≡ false
    → register_job second (register_job first registry).1
      ≡ (registered (register_job first registry).0, (register_job first registry).1)
unfolding register_job
register-register first second registry same fresh =
    claim-claim first second registry (running_job first.id registry) same fresh refl
