-- ===== src/Rollup/ElasticBatch.antt =====
-- controllers/elasticbatch/status.go: the status of an ElasticBatchJob.
use kubedl.Prelude.{ℕ, String, Bool, true, ◌&&◌, not, Option, [], ◌∷◌, if◌then◌else◌, str_eq, ltb}
use kubedl.Prelude.Map.{lookup, has_key}
use kubedl.Prelude.Int.{sub_ℕ, is_zero}
use kubedl.Prelude.Format.{◌<>◌}
use kubedl.Api.{JobStatus, ReplicaSpec, ReplicaStatus, SuccessPolicy, replica_type_ai_master}
use kubedl.Conditions.{is_failed, is_restarting, job_restarting_reason, job_failed_reason}
use kubedl.Rollup.{
  Roll, Previous, Specs, Flow, next, refused, start, acknowledge, contains_replica_type,
  mark_running, mark_succeeded, mark_restarting, mark_failed, loop, replicas_msg,
}
use kubedl.Rollup.Tensorflow.{successes, all_succeeded, wants_all_workers}

abbrev pub replica_type_worker : String
replica_type_worker = "Worker"

pub record Job : Type 0 where
  pub now : ℕ
  pub name : String
  pub success_policy : Option SuccessPolicy
  pub specs : Specs
  pub restart : Bool
  pub all_workers_succeed : Bool
  pub previous : Previous

abbrev success_msg : Job → String
success_msg j = "ElasticBatchJob " <> j.name <> " successfully completed."

abbrev running_msg : Job → String
running_msg j = "ElasticBatchJob " <> j.name <> " is running."

-- Whether a replica type counts as the success of the job: any type does, once its replicas have
-- all succeeded.
abbrev pub type_done : Job → String → ReplicaSpec → ReplicaStatus → Bool
type_done j rtype spec st =
    let all =
      not (str_eq rtype replica_type_ai_master)
      && has_key replica_type_worker j.specs
      && wants_all_workers j.success_policy in
    is_zero (sub_ℕ spec.replicas st.succeeded) && (if all then j.all_workers_succeed else true)

unfoldable pub follow : Job → String → ReplicaSpec → ReplicaStatus → Roll → Roll
follow j rtype spec st r =
    let r' = if ltb 0 st.active then mark_running j.now (running_msg j) r else r in
    if type_done j rtype spec st then mark_succeeded j.now (success_msg j) r' else r'

unfoldable pub react : Job → String → ReplicaStatus → Roll → Roll
react j rtype st r =
    let again =
      mark_restarting j.now job_restarting_reason job_restarting_reason
        (replicas_msg "ElasticBatchJob" j.name "restarting" st.failed rtype ".") j.previous r in
    let end =
      mark_failed j.now job_failed_reason job_failed_reason
        (replicas_msg "ElasticBatchJob" j.name "failed" st.failed rtype ".") j.previous r in
    if ltb 0 st.failed
    then (if j.restart && not (str_eq rtype replica_type_ai_master) then again else end)
    else r

-- A job with no AIMaster is refused as an invalid configuration.
unfoldable pub body : Job → String → ReplicaSpec → ReplicaStatus → Roll → Flow
body j rtype spec st r =
    if contains_replica_type j.specs (replica_type_ai_master ∷ [])
    then next (react j rtype st (follow j rtype spec st r))
    else refused r

unfoldable pub job_of : ℕ → String → Option SuccessPolicy → Specs → Bool → JobStatus → Job
job_of now name policy specs restart s = record {
  now = now;
  name = name;
  success_policy = policy;
  specs = specs;
  restart = restart;
  all_workers_succeed =
      all_succeeded (lookup replica_type_worker specs)
        (successes (lookup replica_type_worker s.replica_statuses));
  previous = record { was_restarting = is_restarting s; was_failed = is_failed s };
}

-- updateGeneralJobStatus.
unfoldable pub update_general_job_status :
    ℕ → String → Option SuccessPolicy → Specs → Bool → JobStatus → Flow
update_general_job_status now name policy specs restart s =
    loop (body (job_of now name policy specs restart s)) specs (start (acknowledge now s))
