-- ===== src/Rollup/Tensorflow.antt =====
-- controllers/tensorflow/status.go: the status of a TFJob.
pub mod Succeeds
pub mod Fails
use kubedl.Prelude.{
  ℕ, zero, suc, ◌+◌, ◌-◌, ◌*◌, ◌/◌, ◌≤◌, String, Bool, true, false, ◌||◌, ◌&&◌, not, Option, none,
  some, List, [], ◌∷◌, ◌++◌, if◌then◌else◌, str_eq, ltb, leb, ◌==◌,
}
use kubedl.Prelude.Map.{lookup, has_key}
use kubedl.Prelude.Int.{ℤ, pos, negsuc, sub_ℕ, is_zero}
use kubedl.Prelude.Format.{◌<>◌}
use kubedl.Api.{
  running, restarting, succeeded, failed, JobStatus, ReplicaSpec, ReplicaStatus, SuccessPolicy,
  all_workers, success_policy_eq, replica_type_ai_master, PodPhase, phase_eq,
}
use kubedl.Kube.{Pod, exit_code_of, index_of}
use kubedl.Conditions.{
  is_failed, is_succeeded, is_restarting, job_succeeded_reason, job_restarting_reason,
  job_failed_reason,
}
use kubedl.Rollup.{
  Roll, Previous, Specs, Flow, next, returned, refused, panics, start, acknowledge, or_now,
  contains_replica_type, mark_running, mark_succeeded, mark_restarting, mark_failed, loop,
  replicas_msg,
}

abbrev pub replica_type_worker : String
replica_type_worker = "Worker"

abbrev pub replica_type_chief : String
replica_type_chief = "Chief"

abbrev pub replica_type_master : String
replica_type_master = "Master"

-- IsTFJobChieforMaster.
unfoldable pub is_chief_or_master : String → Bool
is_chief_or_master t =
    str_eq t replica_type_chief || str_eq t replica_type_master || str_eq t replica_type_ai_master

-- What the loop body reads: the job's name and success policy, the specifications, and the values
-- computed ahead of the loop.
pub record Job : Type 0 where
  pub now : ℕ
  pub name : String
  pub success_policy : Option SuccessPolicy
  pub specs : Specs
  pub restart : Bool
  pub worker0_completed : Bool
  pub all_workers_succeed : Bool
  pub previous : Previous

abbrev pub wants_all_workers : Option SuccessPolicy → Bool
wants_all_workers none = false
wants_all_workers (some p) = success_policy_eq p all_workers

abbrev success_msg : Job → String
success_msg j = "TFJob " <> j.name <> " successfully completed."

abbrev running_msg : Job → String
running_msg j = "TFJob " <> j.name <> " is running."

-- Whether a chief or master type counts as the success of the job.
abbrev pub chief_done : Job → String → ReplicaSpec → ReplicaStatus → Bool
chief_done j rtype spec st =
    let all =
      not (str_eq rtype replica_type_ai_master)
      && has_key replica_type_worker j.specs
      && wants_all_workers j.success_policy in
    is_zero (sub_ℕ spec.replicas st.succeeded) && (if all then j.all_workers_succeed else true)

-- The branch for a job with a chief, a master or an AIMaster.
unfoldable pub follow_chief : Job → String → ReplicaSpec → ReplicaStatus → Roll → Roll
follow_chief j rtype spec st r =
    let r' = if ltb 0 st.active then mark_running j.now (running_msg j) r else r in
    if is_chief_or_master rtype
    then (if chief_done j rtype spec st then mark_succeeded j.now (success_msg j) r' else r')
    else r

-- The branch for the worker type of a job with none of these. Where the policy is read and missing,
-- the pointer is nil.
unfoldable pub follow_workers : Job → ReplicaSpec → ReplicaStatus → Roll → Flow
follow_workers j spec st r =
    let succeed = next (mark_succeeded j.now (success_msg j) r) in
    let go_on = next (if ltb 0 st.active then mark_running j.now (running_msg j) r else r) in
    let by_worker0 : Flow = elim j.success_policy [
      | none ↦ panics
      | some p ↦ if success_policy_eq p all_workers then go_on else succeed
    ] in
    if is_zero (sub_ℕ spec.replicas st.succeeded)
    then succeed
    else if j.worker0_completed
    then by_worker0
    else go_on

-- The reaction to failed replicas, common to all types.
unfoldable pub react : Job → String → ReplicaStatus → Roll → Roll
react j rtype st r =
    let again =
      mark_restarting j.now job_restarting_reason job_restarting_reason
        (replicas_msg "TFJob" j.name "restarting" st.failed rtype ".") j.previous r in
    let end =
      mark_failed j.now job_failed_reason job_failed_reason
        (replicas_msg "TFJob" j.name "failed" st.failed rtype ".") j.previous r in
    if ltb 0 st.failed
    then (if j.restart && not (str_eq rtype replica_type_ai_master) then again else end)
    else r

unfoldable pub has_chief : Job → Bool
has_chief j =
    contains_replica_type j.specs
      (replica_type_chief ∷ replica_type_master ∷ replica_type_ai_master ∷ [])

unfoldable pub body : Job → String → ReplicaSpec → ReplicaStatus → Roll → Flow
body j rtype spec st r =
    let workers : Flow = elim (follow_workers j spec st r) [
      | next r' ↦ next (react j rtype st r')
      | f ↦ f
    ] in
    if has_chief j
    then next (react j rtype st (follow_chief j rtype spec st r))
    else if str_eq rtype replica_type_worker
    then workers
    else next (react j rtype st r)

abbrev pub successes : Option ReplicaStatus → ℕ
successes none = 0
successes (some st) = st.succeeded

abbrev pub all_succeeded : Option ReplicaSpec → ℕ → Bool
all_succeeded none n = false
all_succeeded (some spec) n = spec.replicas == n

abbrev pub container_name : String
container_name = "tensorflow"

abbrev is_index_zero : Option ℤ → Bool
is_index_zero none = false
is_index_zero (some i) = is_zero i

-- Whether the first worker pod with index 0 has ended well: its container exited with code 0 and
-- its phase is Succeeded.
unfoldable pub worker0_completed : List Pod → Bool
worker0_completed [] = false
worker0_completed (p ∷ ps) =
    let rest = worker0_completed ps in
    if is_index_zero (index_of p.labels)
    then exit_code_of container_name p.container_statuses == 0
      && phase_eq p.phase PodPhase.succeeded
    else rest

unfoldable pub job_of :
    ℕ → String → Option SuccessPolicy → Specs → Bool → List Pod → JobStatus → Job
job_of now name policy specs restart workers s = record {
  now = now;
  name = name;
  success_policy = policy;
  specs = specs;
  restart = restart;
  worker0_completed = worker0_completed workers;
  all_workers_succeed =
      all_succeeded (lookup replica_type_worker specs)
        (successes (lookup replica_type_worker s.replica_statuses));
  previous = record { was_restarting = is_restarting s; was_failed = is_failed s };
}

-- updateGeneralJobStatus. `workers` are the job's pods of the worker type, if they could be listed.
unfoldable pub update_general_job_status :
    ℕ → String → Option SuccessPolicy → Specs → Bool → Option (List Pod) → JobStatus → Flow
update_general_job_status now name policy specs restart workers s = elim workers [
  | none ↦ refused (start s)
  | some ps ↦
      loop (body (job_of now name policy specs restart ps s)) specs (start (acknowledge now s))
]
