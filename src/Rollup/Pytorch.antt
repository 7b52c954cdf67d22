-- ===== src/Rollup/Pytorch.antt =====
-- controllers/pytorch/status.go: the status of a PyTorchJob.
use kubedl.Prelude.{
  ℕ, zero, suc, ◌+◌, ◌-◌, ◌*◌, ◌/◌, ◌%◌, ◌≤◌, String, Bool, true, false, ◌||◌, ◌&&◌, not, Option,
  none, some, List, [], ◌∷◌, ◌++◌, if◌then◌else◌, str_eq, ltb, leb, ◌==◌,
}
use kubedl.Prelude.Map.{lookup, has_key}
use kubedl.Prelude.Int.{ℤ, pos, negsuc, sub_ℕ, is_zero}
use kubedl.Prelude.Format.{◌<>◌}
use kubedl.Api.{
  running, restarting, succeeded, failed, JobStatus, ReplicaSpec, ReplicaStatus, SuccessPolicy,
  all_workers, success_policy_eq, replica_type_ai_master,
}
use kubedl.Conditions.{
  is_failed, is_succeeded, is_restarting, job_succeeded_reason, job_restarting_reason,
  job_failed_reason,
}
use kubedl.Rollup.{
  Roll, Previous, Specs, Flow, next, returned, refused, panics, start, acknowledge, or_now,
  contains_replica_type, mark_running, mark_succeeded, mark_restarting, mark_failed, loop,
  replicas_msg,
}
use kubedl.Rollup.Tensorflow.{successes, all_succeeded}

abbrev pub replica_type_master : String
replica_type_master = "Master"

abbrev pub replica_type_worker : String
replica_type_worker = "Worker"

pub record Job : Type 0 where
  pub now : ℕ
  pub name : String
  pub specs : Specs
  pub restart : Bool
  pub all_workers_succeed : Bool
  pub previous : Previous

abbrev success_msg : Job → String
success_msg j = "PyTorchJob " <> j.name <> " is successfully completed."

abbrev running_msg : Job → String
running_msg j = "PyTorchJob " <> j.name <> " is running."

unfoldable pub has_master : Job → Bool
has_master j = contains_replica_type j.specs (replica_type_master ∷ replica_type_ai_master ∷ [])

-- Whether the master or the AIMaster counts as the success of the job.
abbrev pub master_done : Job → String → ReplicaSpec → ReplicaStatus → Bool
master_done j rtype spec st =
    let all = not (str_eq rtype replica_type_ai_master) && has_key replica_type_worker j.specs in
    ltb 0 spec.replicas
    && is_zero (sub_ℕ spec.replicas st.succeeded)
    && (if all then j.all_workers_succeed else true)

unfoldable pub follow_master : Job → String → ReplicaSpec → ReplicaStatus → Roll → Roll
follow_master j rtype spec st r =
    let r' = if ltb 0 st.active then mark_running j.now (running_msg j) r else r in
    if str_eq rtype replica_type_master || str_eq rtype replica_type_ai_master
    then (if master_done j rtype spec st then mark_succeeded j.now (success_msg j) r' else r')
    else r

unfoldable pub react : Job → String → ReplicaStatus → Roll → Roll
react j rtype st r =
    let again =
      mark_restarting j.now job_restarting_reason job_restarting_reason
        (replicas_msg "PyTorchJob" j.name "restarting" st.failed rtype ".") j.previous r in
    let end =
      mark_failed j.now job_failed_reason job_failed_reason
        (replicas_msg "PyTorchJob" j.name "failed" st.failed rtype ".") j.previous r in
    if ltb 0 st.failed
    then (if j.restart && not (str_eq rtype replica_type_ai_master) then again else end)
    else r

-- A job with neither a master nor an AIMaster is refused as an invalid configuration.
unfoldable pub body : Job → String → ReplicaSpec → ReplicaStatus → Roll → Flow
body j rtype spec st r =
    if has_master j then next (react j rtype st (follow_master j rtype spec st r)) else refused r

unfoldable pub job_of : ℕ → String → Specs → Bool → JobStatus → Job
job_of now name specs restart s = record {
  now = now;
  name = name;
  specs = specs;
  restart = restart;
  all_workers_succeed =
      all_succeeded (lookup replica_type_worker specs)
        (successes (lookup replica_type_worker s.replica_statuses));
  previous = record { was_restarting = is_restarting s; was_failed = is_failed s };
}

-- updateGeneralJobStatus.
unfoldable pub update_general_job_status : ℕ → String → Specs → Bool → JobStatus → Flow
update_general_job_status now name specs restart s =
    loop (body (job_of now name specs restart s)) specs (start (acknowledge now s))
