-- ===== src/Rollup/Xdl.antt =====
-- controllers/xdl/status.go: the status of an XDLJob.
pub mod Minimum
pub mod Threshold
use kubedl.Prelude.{
  ℕ, zero, suc, ◌+◌, ◌-◌, ◌*◌, ◌/◌, ◌%◌, ◌≤◌, String, Bool, true, false, ◌||◌, ◌&&◌, not, Option,
  none, some, List, [], ◌∷◌, ◌++◌, if◌then◌else◌, str_eq, ltb, leb, ◌==◌,
}
use kubedl.Prelude.Map.{lookup, has_key}
use kubedl.Prelude.Int.{ℤ, pos, negsuc, sub_ℕ, is_zero}
use kubedl.Prelude.Format.{◌<>◌}
use kubedl.Api.{
  running, restarting, succeeded, failed, JobStatus, ReplicaSpec, ReplicaStatus, SuccessPolicy,
  all_workers, success_policy_eq, replica_type_ai_master,
}
use kubedl.Conditions.{
  is_failed, is_succeeded, is_restarting, job_succeeded_reason, job_restarting_reason,
  job_failed_reason,
}
use kubedl.Rollup.{
  Roll, Previous, Specs, Flow, next, returned, refused, panics, start, acknowledge, or_now,
  contains_replica_type, mark_running, mark_succeeded, mark_restarting, mark_failed, loop,
  replicas_msg,
}

abbrev pub replica_type_worker : String
replica_type_worker = "Worker"

abbrev pub replica_type_extend_role : String
replica_type_extend_role = "ExtendRole"

-- An int32, from the bit pattern that a product of two of them leaves.
unfoldable pub to_int32 : ℕ → ℤ
to_int32 n =
    let bits = n % 4294967296 in
    if ltb bits 2147483648 then pos bits else negsuc (4294967295 - bits)

-- math.Ceil of a hundredth. The quotient of an int32 by 100 is far from the next integer in a
-- float64, unless it is one.
unfoldable pub ceil_hundredth : ℤ → ℤ
ceil_hundredth (pos n) = pos ((n + 99) / 100)
ceil_hundredth (negsuc n) = sub_ℕ 0 ((n + 1) / 100)

-- calculateMinFinish.
unfoldable pub calculate_min_finish : Option ℕ → Option ℕ → ℕ → ℤ
calculate_min_finish (some percentage) number workers =
    ceil_hundredth (to_int32 (workers * percentage))
calculate_min_finish none (some number) workers = pos number
calculate_min_finish none none workers = pos workers

abbrev pub reaches : ℕ → ℤ → Bool
reaches n (pos m) = leb m n
reaches n (negsuc m) = true

pub record Job : Type 0 where
  pub now : ℕ
  pub name : String
  pub min_finish_worker_percentage : Option ℕ
  pub min_finish_worker_num : Option ℕ
  pub restart : Bool
  pub previous : Previous

abbrev pub is_worker : String → Bool
is_worker t = str_eq t replica_type_worker || str_eq t replica_type_extend_role

-- The start time is set when all replicas of a type are active.
unfoldable pub note_start : ℕ → ReplicaSpec → ReplicaStatus → Roll → Roll
note_start now spec st r =
    if st.active == spec.replicas
    then record r { status = record r.status { start_time = or_now now r.status.start_time } }
    else r

unfoldable pub react : Job → String → ReplicaStatus → Roll → Roll
react j rtype st r =
    if j.restart
    then mark_restarting j.now "XdlJobRestarting" job_restarting_reason
        (replicas_msg "XDLJob" j.name "restarting" st.failed rtype ".") j.previous r
    else mark_failed j.now "XdlJobFailed" job_failed_reason
        (replicas_msg "XDLJob" j.name "failed" st.failed rtype ".") j.previous r

-- After the loop, with the number of workers and of those that succeeded.
unfoldable pub conclude : Job → ℕ → ℕ → Roll → Roll
conclude j workers done r =
    if reaches done
      (calculate_min_finish j.min_finish_worker_percentage j.min_finish_worker_num workers)
    then record (mark_succeeded j.now ("XDLJob " <> j.name <> " is successfully completed.") r) {
      events = r.events;
    }
    else mark_running j.now ("XDLJob " <> j.name <> " is running.") r

-- The loop, which adds up the workers and stops at the first type with a failed replica, and what
-- follows it.
unfoldable pub run : Job → Specs → ℕ → ℕ → Roll → Roll
run j [] workers done r = conclude j workers done r
run j ((rtype, spec) ∷ rest) workers done r = elim (lookup rtype r.status.replica_statuses) [
  | none ↦ run j rest workers done r
  | some st ↦
      let r' = note_start j.now spec st r in
      let workers' = if is_worker rtype then workers + spec.replicas else workers in
      let done' = if is_worker rtype then done + st.succeeded else done in
      elim (ltb 0 st.failed) [ true ↦ react j rtype st r' | false ↦ run j rest workers' done' r' ]
]

-- updateGeneralJobStatus.
unfoldable pub update_general_job_status :
    ℕ → String → Option ℕ → Option ℕ → Specs → Bool → JobStatus → Roll
update_general_job_status now name percentage number specs restart s =
    run
      (record {
        now = now;
        name = name;
        min_finish_worker_percentage = percentage;
        min_finish_worker_num = number;
        restart = restart;
        previous = record { was_restarting = is_restarting s; was_failed = is_failed s };
      })
      specs 0 0 (start s)
