-- ===== src/Conditions.antt =====
-- pkg/util/status.go: the conditions of a job status, and how a new condition is entered.
pub mod Counting
pub mod Invariant
pub mod Updates
pub mod Ends
pub mod Tests
use kubedl.Prelude.{
  ℕ, String, Bool, true, false, ◌&&◌, ◌||◌, Option, none, some, List, [], ◌∷◌, ◌++◌, str_eq,
  if◌then◌else◌, is_some, length, ◌==◌,
}
use kubedl.Api.{
  JobConditionType, created, queuing, running, restarting, succeeded, failed, ConditionStatus,
  condition_true, condition_false, JobCondition, JobStatus, type_eq, status_eq,
}

abbrev pub job_created_reason : String
job_created_reason = "JobCreated"

abbrev pub job_succeeded_reason : String
job_succeeded_reason = "JobSucceeded"

abbrev pub job_running_reason : String
job_running_reason = "JobRunning"

abbrev pub job_failed_reason : String
job_failed_reason = "JobFailed"

abbrev pub job_restarting_reason : String
job_restarting_reason = "JobRestarting"

abbrev pub job_enqueued_reason : String
job_enqueued_reason = "JobEnqueued"

abbrev pub job_dequeued_reason : String
job_dequeued_reason = "JobDequeued"

abbrev pub job_evicted_reason : String
job_evicted_reason = "JobEvicted"

-- The loop of GetCondition: the first condition of the type.
unfoldable pub find_condition : List JobCondition → JobConditionType → Option JobCondition
find_condition [] t = none
find_condition (c ∷ cs) t = if type_eq c.type t then some c else find_condition cs t

unfoldable pub get_condition : JobStatus → JobConditionType → Option JobCondition
get_condition s t = find_condition s.conditions t

-- The loop of HasCondition.
unfoldable pub any_true : List JobCondition → JobConditionType → Bool
any_true [] t = false
any_true (c ∷ cs) t =
    if type_eq c.type t && status_eq c.status condition_true then true else any_true cs t

unfoldable pub has_condition : JobStatus → JobConditionType → Bool
has_condition s t = any_true s.conditions t

abbrev pub is_succeeded : JobStatus → Bool
is_succeeded s = has_condition s succeeded

abbrev pub is_failed : JobStatus → Bool
is_failed s = has_condition s failed

abbrev pub is_running : JobStatus → Bool
is_running s = has_condition s running

abbrev pub is_created : JobStatus → Bool
is_created s = has_condition s created

abbrev pub is_restarting : JobStatus → Bool
is_restarting s = has_condition s restarting

unfoldable pub last_condition : List JobCondition → Option JobCondition
last_condition [] = none
last_condition (c ∷ []) = some c
last_condition (c ∷ d ∷ cs) = last_condition (d ∷ cs)

unfoldable pub get_last_condition : JobStatus → JobConditionType → Option JobCondition
get_last_condition s t = elim (last_condition s.conditions) [
  | none ↦ none
  | some c ↦ if type_eq c.type t then some c else none
]

abbrev pub reason_is : Option JobCondition → String → Bool
reason_is none r = false
reason_is (some c) r = str_eq c.reason r

unfoldable pub is_evicted : JobStatus → Bool
is_evicted s = reason_is (get_condition s failed) job_evicted_reason

unfoldable pub is_enqueued : JobStatus → Bool
is_enqueued s = reason_is (get_last_condition s queuing) job_enqueued_reason

unfoldable pub is_dequeued : JobStatus → Bool
is_dequeued s = reason_is (get_last_condition s queuing) job_dequeued_reason

unfoldable pub is_just_created : JobStatus → Bool
is_just_created s = is_some (get_last_condition s created)

unfoldable pub need_enqueue_to_coordinator : JobStatus → Bool
need_enqueue_to_coordinator s = length s.conditions == 0 || is_just_created s || is_enqueued s

-- The clock is read once for both times.
abbrev pub new_condition : ℕ → JobConditionType → String → String → JobCondition
new_condition now t reason message = record {
  type = t;
  status = condition_true;
  reason = reason;
  message = message;
  last_update_time = now;
  last_transition_time = now;
}

-- Whether a condition of type `t` leaves no room for one of type `c`.
unfoldable pub drops : JobConditionType → JobConditionType → Bool
drops restarting running = true
drops running restarting = true
drops t c = type_eq c t

-- A finished job has its running condition set to false.
unfoldable pub demote : JobConditionType → JobCondition → JobCondition
demote t c =
    if (type_eq t failed || type_eq t succeeded) && type_eq c.type running
    then record c { status = condition_false }
    else c

unfoldable pub filter_out_condition : List JobCondition → JobConditionType → List JobCondition
filter_out_condition [] t = []
filter_out_condition (c ∷ cs) t =
    let rest = filter_out_condition cs t in if drops t c.type then rest else demote t c ∷ rest

abbrev pub unchanged : Option JobCondition → JobCondition → Bool
unchanged none c = false
unchanged (some d) c = status_eq d.status c.status && str_eq d.reason c.reason

-- The transition time of the current condition is kept where its status does not change.
abbrev pub keep_transition : Option JobCondition → JobCondition → JobCondition
keep_transition none c = c
keep_transition (some d) c =
    if status_eq d.status c.status
    then record c { last_transition_time = d.last_transition_time }
    else c

unfoldable pub set_condition : JobStatus → JobCondition → JobStatus
set_condition s c =
    let current = get_condition s c.type in
    let next = filter_out_condition s.conditions c.type ++ keep_transition current c ∷ [] in
    if is_failed s || is_succeeded s
    then s
    else if unchanged current c
    then s
    else record s { conditions = next }

-- UpdateJobConditions. It never returns an error.
unfoldable pub update_job_conditions :
    ℕ → JobStatus → JobConditionType → String → String → JobStatus
update_job_conditions now s t reason message = set_condition s (new_condition now t reason message)
