-- ===== src/Rollup/XgBoost.antt =====
-- controllers/xgboost/job.go, UpdateJobStatus: the status of an XGBoostJob.
pub mod Restarts
use kubedl.Prelude.{
  ℕ, zero, suc, ◌+◌, ◌-◌, ◌*◌, ◌/◌, ◌%◌, ◌≤◌, String, Bool, true, false, ◌||◌, ◌&&◌, not, Option,
  none, some, List, [], ◌∷◌, ◌++◌, if◌then◌else◌, str_eq, ltb, leb, ◌==◌,
}
use kubedl.Prelude.Map.{lookup, has_key}
use kubedl.Prelude.Int.{ℤ, pos, negsuc, sub_ℕ, is_zero}
use kubedl.Prelude.Format.{◌<>◌}
use kubedl.Api.{
  running, restarting, succeeded, failed, JobStatus, ReplicaSpec, ReplicaStatus, SuccessPolicy,
  all_workers, success_policy_eq, replica_type_ai_master,
}
use kubedl.Conditions.{
  is_failed, is_succeeded, is_restarting, job_succeeded_reason, job_restarting_reason,
  job_failed_reason,
}
use kubedl.Rollup.{
  Roll, Previous, Specs, Flow, next, returned, refused, panics, start, acknowledge, or_now,
  contains_replica_type, mark_running, mark_succeeded, mark_restarting, mark_failed, loop,
  replicas_msg,
}
use kubedl.Conditions.{update_job_conditions}

abbrev pub replica_type_master : String
replica_type_master = "Master"

-- `stored_completion` is the completion time of the stored job, which the failing branch tests.
pub record Job : Type 0 where
  pub now : ℕ
  pub name : String
  pub restart : Bool
  pub stored_completion : Option ℕ
  pub previous : Previous

unfoldable pub note_start : ℕ → ReplicaSpec → ReplicaStatus → Roll → Roll
note_start now spec st r =
    if st.active == spec.replicas
    then record r { status = record r.status { start_time = or_now now r.status.start_time } }
    else r

abbrev pub fail_time : Job → JobStatus → Option ℕ
fail_time j s = elim j.stored_completion [ none ↦ some j.now | some _ ↦ s.completion_time ]

unfoldable pub fail : Job → String → Roll → Roll
fail j msg r = record r {
  status =
      update_job_conditions j.now (record r.status { completion_time = fail_time j r.status })
        failed job_failed_reason msg;
  events = r.events ++ job_failed_reason ∷ [];
  failure_inc = if j.previous.was_failed then r.failure_inc else r.failure_inc + 1;
}

unfoldable pub react : Job → String → ReplicaStatus → Roll → Roll
react j rtype st r =
    let again =
      mark_restarting j.now job_restarting_reason job_restarting_reason
        (replicas_msg "XGBoostJob" j.name "restarting" st.failed rtype ".") j.previous r in
    let end = fail j (replicas_msg "XGBoostJob" j.name "failed" st.failed rtype ".") r in
    if ltb 0 st.failed then (if j.restart then again else end) else r

-- The loop body: a master whose replicas have all succeeded ends it.
unfoldable pub body : Job → String → ReplicaSpec → ReplicaStatus → Roll → Flow
body j rtype spec st r =
    let r₁ = note_start j.now spec st r in
    let r₂ =
      if ltb 0 st.active
      then mark_running j.now ("XGBoostJob " <> j.name <> " is running.") r₁
      else r₁ in
    if str_eq rtype replica_type_master
    then (if is_zero (sub_ℕ spec.replicas st.succeeded)
        then returned
            (mark_succeeded j.now ("XGBoostJob " <> j.name <> " is successfully completed.") r₂)
        else next (react j rtype st r₂))
    else next (react j rtype st r₁)

-- UpdateJobStatus. A loop that is not left early is followed by a running condition.
unfoldable pub update_job_status : ℕ → String → Option ℕ → Specs → Bool → JobStatus → Flow
update_job_status now name stored specs restart s =
    let j : Job = record {
      now = now;
      name = name;
      restart = restart;
      stored_completion = stored;
      previous = record { was_restarting = is_restarting s; was_failed = is_failed s };
    } in
    elim (loop (body j) specs (start s)) [
      | next r ↦ returned (mark_running now ("XGBoostJob " <> name <> " is running.") r)
      | returned r ↦ returned r
      | refused r ↦ refused r
      | panics ↦ panics
    ]
