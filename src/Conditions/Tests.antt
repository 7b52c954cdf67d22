-- ===== src/Conditions/Tests.antt =====
-- The life of one job's conditions, and the theorems at its states.
use kubedl.Prelude.{ℕ, String, true, false, none, List, [], ◌∷◌, ◌≡◌, refl, arith, inr}
use kubedl.Api.{
  JobConditionType, created, queuing, running, succeeded, failed, JobStatus, type_eq, status_eq,
}
use kubedl.Conditions.{
  is_succeeded, is_failed, any_true, has_condition, find_condition, get_condition, new_condition,
  last_condition, get_last_condition, is_enqueued, is_just_created, need_enqueue_to_coordinator,
  drops, demote, filter_out_condition, set_condition, update_job_conditions, job_created_reason,
  job_enqueued_reason, job_dequeued_reason, job_running_reason, job_failed_reason, unchanged,
}
use kubedl.Conditions.Counting.{count_type}
use kubedl.Conditions.Invariant.{is_finished, IsWellFormed, update_job_conditions-IsWellFormed}
use kubedl.Conditions.Ends.{outcome_stays}
use kubedl.Conditions.Updates.{Update, apply_all, apply_all-IsWellFormed}

program : Unit {0}
unfolding type_eq status_eq any_true has_condition find_condition get_condition last_condition
    get_last_condition is_enqueued is_just_created need_enqueue_to_coordinator drops demote
    filter_out_condition set_condition update_job_conditions
program = tt

abbrev pub empty_status : JobStatus
empty_status = record {
  conditions = [];
  replica_statuses = [];
  start_time = none;
  completion_time = none;
  last_reconcile_time = none;
  model_version_name = "";
  cache_backend_name = "";
}

pub empty_status-IsWellFormed : IsWellFormed empty_status
unfolding program
empty_status-IsWellFormed = record {
  distinct = λ t. omega arith;
  exclusive = omega arith;
  one_end = refl;
  not_running = λ h. refl;
}

abbrev update : ℕ → JobConditionType → String → Update
update now t r = record { now = now; type = t; reason = r; message = "" }

abbrev life : List Update
life =
    update 1 created job_created_reason
    ∷ update 2 queuing job_enqueued_reason
    ∷ update 3 running job_running_reason
    ∷ update 4 failed job_failed_reason
    ∷ []

abbrev ended : JobStatus
unfolding program
ended = apply_all empty_status life

-- A failed job keeps its running condition with status False.
ended_not_running :
    (is_finished ended ≡ true)
    × (has_condition ended running ≡ false)
    × (count_type ended.conditions running ≡ 1)
unfolding program
ended_not_running = (refl, refl, refl)

update_job_conditions-IsWellFormed_example :
    IsWellFormed (update_job_conditions 5 empty_status running job_running_reason "up")
update_job_conditions-IsWellFormed_example =
    update_job_conditions-IsWellFormed 5 empty_status running job_running_reason "up"
      empty_status-IsWellFormed

apply_all-IsWellFormed_example : IsWellFormed (apply_all empty_status life)
apply_all-IsWellFormed_example = apply_all-IsWellFormed life empty_status empty_status-IsWellFormed

empty_open : is_finished empty_status ≡ false
unfolding program
empty_open = refl

outcome_stays_example :
    (is_succeeded (
        apply_all
          (update_job_conditions 5 empty_status failed "JobFailed" "down")
          (update 9 succeeded "JobSucceeded" ∷ []))
      ≡ type_eq failed succeeded)
    × ((is_failed (
            apply_all
              (update_job_conditions 5 empty_status failed "JobFailed" "down")
              (update 9 succeeded "JobSucceeded" ∷ []))
          ≡ type_eq failed failed)
        × (apply_all
              (update_job_conditions 5 empty_status failed "JobFailed" "down")
              (update 9 succeeded "JobSucceeded" ∷ [])
            ≡ update_job_conditions 5 empty_status failed "JobFailed" "down"))
outcome_stays_example =
    outcome_stays 5 empty_status failed "JobFailed" "down" (update 9 succeeded "JobSucceeded" ∷ [])
      empty_open (inr refl)

nothing_there :
    unchanged (get_condition empty_status queuing) (new_condition 7 queuing job_dequeued_reason "")
    ≡ false
unfolding program
nothing_there = refl
