-- ===== src/Rollup.antt =====
-- The parts that the job kinds share in updating a job's status from its replica statuses
-- (updateGeneralJobStatus in controllers/*/status.go): the state that the loop over the replica
-- specifications mutates, its four changes of the conditions, and the loop.
pub mod Laws
pub mod Keeps
pub mod Reaches
pub mod Finishes
pub mod Tensorflow
pub mod Pytorch
pub mod ElasticBatch
pub mod ElasticDl
pub mod Xdl
pub mod Mars
pub mod XgBoost
pub mod Mpi
mod Tests
use kubedl.Prelude.{
  ℕ, ◌+◌, String, Bool, true, false, ◌||◌, Option, none, some, List, [], ◌∷◌, ◌++◌, if◌then◌else◌,
}
use kubedl.Prelude.Map.{lookup, has_key}
use kubedl.Prelude.Format.{◌<>◌, decimal}
use kubedl.Api.{running, restarting, succeeded, failed, JobStatus, ReplicaSpec, ReplicaStatus}
use kubedl.Conditions.{
  update_job_conditions, job_running_reason, job_succeeded_reason, job_restarting_reason,
  job_failed_reason,
}

-- The job status, the reasons of the events recorded so far, and the increments of the metrics.
pub record Roll : Type 0 where
  pub status : JobStatus
  pub events : List String
  pub success_inc : ℕ
  pub failure_inc : ℕ
  pub restart_inc : ℕ

-- What the status said before the update.
pub record Previous : Type 0 where
  pub was_restarting : Bool
  pub was_failed : Bool

abbrev pub Specs : Type 0
Specs = List (String × ReplicaSpec)

-- The outcome of a loop body: go on, `return nil`, `return err`, or a nil dereference.
pub data Flow : Type 0 where
  next : Roll → Flow
  returned : Roll → Flow
  refused : Roll → Flow
  panics : Flow

unfoldable pub start : JobStatus → Roll
start s = record { status = s; events = []; success_inc = 0; failure_inc = 0; restart_inc = 0 }

abbrev pub or_now : ℕ → Option ℕ → Option ℕ
or_now now none = some now
or_now now (some t) = some t

-- Set the start time of the job if it has none.
unfoldable pub acknowledge : ℕ → JobStatus → JobStatus
acknowledge now s = record s { start_time = or_now now s.start_time }

abbrev pub complete : ℕ → JobStatus → JobStatus
complete now s = record s { completion_time = or_now now s.completion_time }

-- ContainsReplicaType.
unfoldable pub contains_replica_type : Specs → List String → Bool
contains_replica_type specs [] = false
contains_replica_type specs (t ∷ ts) =
    let rest = contains_replica_type specs ts in if has_key t specs then true else rest

unfoldable pub mark_running : ℕ → String → Roll → Roll
mark_running now msg r = record r {
  status = update_job_conditions now r.status running job_running_reason msg;
}

unfoldable pub mark_succeeded : ℕ → String → Roll → Roll
mark_succeeded now msg r = record r {
  status = update_job_conditions now (complete now r.status) succeeded job_succeeded_reason msg;
  events = r.events ++ job_succeeded_reason ∷ [];
  success_inc = r.success_inc + 1;
}

-- `event` and `reason` are the reasons of the event and of the condition.
unfoldable pub mark_restarting : ℕ → String → String → String → Previous → Roll → Roll
mark_restarting now event reason msg p r = record r {
  status = update_job_conditions now r.status restarting reason msg;
  events = r.events ++ event ∷ [];
  failure_inc = if p.was_restarting then r.failure_inc else r.failure_inc + 1;
  restart_inc = if p.was_restarting then r.restart_inc else r.restart_inc + 1;
}

unfoldable pub mark_failed : ℕ → String → String → String → Previous → Roll → Roll
mark_failed now event reason msg p r = record r {
  status = update_job_conditions now (complete now r.status) failed reason msg;
  events = r.events ++ event ∷ [];
  failure_inc = if p.was_failed then r.failure_inc else r.failure_inc + 1;
}

-- The loop over the replica specifications, in one order of the map. A type with no replica status
-- is skipped.
unfoldable pub loop : (String → ReplicaSpec → ReplicaStatus → Roll → Flow) → Specs → Roll → Flow
loop body [] r = next r
loop body ((rtype, spec) ∷ rest) r = elim (lookup rtype r.status.replica_statuses) [
  | none ↦ loop body rest r
  | some st ↦ elim (body rtype spec st r) [
    | next r' ↦ loop body rest r'
    | returned r' ↦ returned r'
    | refused r' ↦ refused r'
    | panics ↦ panics
  ]
]

abbrev pub replicas_msg : String → String → String → ℕ → String → String → String
replicas_msg kind name verb n rtype tail =
    kind
    <> " "
    <> name
    <> " is "
    <> verb
    <> " because "
    <> decimal n
    <> " "
    <> rtype
    <> " replica(s) failed"
    <> tail
