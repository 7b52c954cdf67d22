-- ===== src/Rollup/ElasticDl.antt =====
-- controllers/elasticdl/status.go: the status of an ElasticDLJob, which has one master replica.
use kubedl.Prelude.{ℕ, String, Bool, Option, none, some, if◌then◌else◌, ltb}
use kubedl.Prelude.Map.{lookup}
use kubedl.Prelude.Int.{sub_ℕ, is_zero}
use kubedl.Prelude.Format.{◌<>◌}
use kubedl.Api.{JobStatus, ReplicaSpec, ReplicaStatus}
use kubedl.Conditions.{is_failed, is_restarting, job_restarting_reason, job_failed_reason}
use kubedl.Rollup.{
  Roll, Previous, Specs, Flow, returned, refused, panics, start, acknowledge, mark_running,
  mark_succeeded, mark_restarting, mark_failed, replicas_msg,
}

abbrev pub replica_type_master : String
replica_type_master = "Master"

pub record Job : Type 0 where
  pub now : ℕ
  pub name : String
  pub restart : Bool
  pub previous : Previous

unfoldable pub follow_master : Job → ReplicaSpec → ReplicaStatus → Roll → Roll
follow_master j spec st r =
    let r' =
      if ltb 0 st.active
      then mark_running j.now ("ElasticDLJob " <> j.name <> " is running.") r
      else r in
    if is_zero (sub_ℕ spec.replicas st.succeeded)
    then mark_succeeded j.now ("ElasticDLJob " <> j.name <> " is successfully completed.") r'
    else r'

unfoldable pub react : Job → ReplicaStatus → Roll → Roll
react j st r =
    let again =
      mark_restarting j.now job_restarting_reason job_restarting_reason
        (replicas_msg "ElasticDLJob" j.name "restarting" st.failed replica_type_master ".")
        j.previous r in
    let end =
      mark_failed j.now job_failed_reason job_failed_reason
        (replicas_msg "ElasticDLJob" j.name "failed" st.failed replica_type_master ".") j.previous
        r in
    if ltb 0 st.failed then (if j.restart then again else end) else r

-- The status of the master, read through a pointer that is nil where the type has none.
abbrev pub on_master : Job → ReplicaSpec → Option ReplicaStatus → Roll → Flow
on_master j spec none r = panics
on_master j spec (some st) r = returned (react j st (follow_master j spec st r))

-- updateGeneralJobStatus. The specifications are those of the job.
unfoldable pub update_general_job_status : ℕ → String → Specs → Bool → JobStatus → Flow
update_general_job_status now name specs restart s =
    let r = start (acknowledge now s) in
    let j : Job = record {
      now = now;
      name = name;
      restart = restart;
      previous = record { was_restarting = is_restarting s; was_failed = is_failed s };
    } in
    elim (lookup replica_type_master specs) [
      | none ↦ refused r
      | some spec ↦ on_master j spec (lookup replica_type_master s.replica_statuses) r
    ]
