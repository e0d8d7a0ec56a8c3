-- ===== src/Domain/Workers.antt =====
-- internal/domain/types.go: worker servers, the jobs that set them up, and the events of the jobs.
use aiyolo.Base.{String, List, [], Option, none, some, ◌===◌, if◌then◌else◌}
use aiyolo.Base.Int.{ℤ}
use aiyolo.Text.{trim_space, to_lower}
use aiyolo.Domain.Time.{Time}
use aiyolo.Domain.Protocols.Distinct.{distinct_by}

pub record WorkerServer : Type 0 where
  pub id : String
  pub name : String
  pub expected_ubuntu_version : String
  pub ssh_host : String
  pub ssh_port : ℤ
  pub ssh_username : String
  pub ssh_key_id : String
  pub install_proxy_id : String
  pub labels : List String
  pub data_root : String
  pub status : String
  pub last_probe_status : String
  pub last_probe_error : String
  pub last_probe_summary_json : String
  pub last_probed_at : Option Time
  pub last_init_job_id : String
  pub created_at : Time
  pub updated_at : Time

pub record WorkerInitJob : Type 0 where
  pub id : String
  pub worker_id : String
  pub action : String
  pub status : String
  pub triggered_by : String
  pub log_summary : String
  pub last_error : String
  pub created_at : Time
  pub updated_at : Time
  pub started_at : Option Time
  pub completed_at : Option Time

pub record WorkerInitJobEvent : Type 0 where
  pub worker_id : String
  pub job_id : String
  pub sequence : ℤ
  pub level : String
  pub message : String
  pub created_at : Time

-- `NormalizeWorkerLabels`.
unfoldable pub normalize_worker_labels : List String → List String
normalize_worker_labels values = distinct_by (λ value. to_lower (trim_space value)) [] values

abbrev trimmed_job : WorkerInitJob → WorkerInitJob
trimmed_job job = record job {
  id = trim_space job.id;
  worker_id = trim_space job.worker_id;
  action = trim_space job.action;
  status = trim_space job.status;
  triggered_by = trim_space job.triggered_by;
  log_summary = trim_space job.log_summary;
  last_error = trim_space job.last_error;
}

abbrev or_default : String → String → String
or_default default s = if s === "" then default else s

-- `NormalizeWorkerInitJob`; `none` is its error, for a blank identifier of the job or the worker.
unfoldable pub normalize_worker_init_job : WorkerInitJob → Option WorkerInitJob
normalize_worker_init_job job =
    let j = trimmed_job job in
    if j.id === ""
    then none
    else if j.worker_id === ""
    then none
    else some (record j {
      action = or_default "bootstrap" j.action;
      status = or_default "queued" j.status;
    })
