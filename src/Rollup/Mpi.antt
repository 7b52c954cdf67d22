-- ===== src/Rollup/Mpi.antt =====
-- controllers/mpi/job.go: the status of an MPIJob, from those of its launcher and its workers.
pub mod Ends
use kubedl.Prelude.{
  ℕ, ◌+◌, String, Bool, true, false, not, ◌&&◌, Option, none, some, List, [], ◌∷◌, ◌++◌, ltb, ◌==◌,
  if◌then◌else◌,
}
use kubedl.Prelude.Map.{lookup}
use kubedl.Prelude.Format.{◌<>◌, decimal}
use kubedl.Api.{failed, JobStatus, ReplicaSpec, ReplicaStatus}
use kubedl.Conditions.{
  is_failed, is_restarting, update_job_conditions, job_running_reason, job_restarting_reason,
  job_failed_reason, job_evicted_reason,
}
use kubedl.Rollup.{
  Roll, Previous, Specs, Flow, next, returned, panics, start, complete, mark_running,
  mark_succeeded, mark_restarting,
}

-- `was_evicted` is IsEvicted of the status in the job itself, of which the status that is updated is
-- a copy.
pub record Job : Type 0 where
  pub now : ℕ
  pub name : String
  pub restart : Bool
  pub was_evicted : Bool
  pub previous : Previous

-- A launcher that has failed. The completion time of an evicted job is not set.
unfoldable pub fail_launcher : Job → ReplicaStatus → Roll → Roll
fail_launcher j st r =
    let msg =
      "MPIJob "
      <> j.name
      <> " is failed because "
      <> decimal st.failed
      <> " Launcher replica(s) failed" in
    let reason = if ltb 0 st.evicted then job_evicted_reason else job_failed_reason in
    let timed =
      if ltb 0 st.evicted
      then r.status
      else if not j.was_evicted
      then complete j.now r.status
      else r.status in
    record r {
      status = update_job_conditions j.now timed failed reason msg;
      events = r.events ++ job_failed_reason ∷ [];
      failure_inc = if j.previous.was_failed then r.failure_inc else r.failure_inc + 1;
    }

unfoldable pub follow_launcher : Job → Option ReplicaStatus → Roll → Flow
follow_launcher j none r = next r
follow_launcher j (some st) r =
    if ltb 0 st.succeeded
    then returned (mark_succeeded j.now ("MPIJob " <> j.name <> " has successfully completed.") r)
    else if ltb 0 st.failed
    then next (fail_launcher j st r)
    else next r

-- Evicted workers fail the job.
unfoldable pub note_evicted : Job → ℕ → ReplicaStatus → Roll → Roll
note_evicted j workers st r =
    let msg = decimal st.evicted <> "/" <> decimal workers <> " workers are evicted." in
    if ltb 0 st.evicted
    then record r {
      status = update_job_conditions j.now r.status failed job_evicted_reason msg;
      events = r.events ++ job_running_reason ∷ [];
    }
    else r

abbrev pub is_launched : Option ReplicaStatus → Bool
is_launched none = false
is_launched (some st) = ltb 0 st.active

unfoldable pub react : Job → Option ReplicaStatus → ℕ → ReplicaStatus → Roll → Roll
react j launcher workers st r =
    if ltb 0 st.failed && j.restart
    then mark_restarting j.now job_restarting_reason job_restarting_reason
        ("MPIJob "
          <> j.name
          <> " is restarting because "
          <> decimal workers
          <> " Worker replica(s) failed")
        j.previous r
    else if is_launched launcher && st.active == workers
    then mark_running j.now ("MPIJob " <> j.name <> " is running.") r
    else r

-- The number of the workers is read through a pointer that is nil where the type is missing.
unfoldable pub follow_workers :
    Job → Option ReplicaStatus → Option ReplicaSpec → Option ReplicaStatus → Roll → Flow
follow_workers j launcher spec none r = next r
follow_workers j launcher none (some st) r = panics
follow_workers j launcher (some spec) (some st) r =
    next (react j launcher spec.replicas st (note_evicted j spec.replicas st r))

-- Go on to the workers, unless the launcher has ended the update.
abbrev pub then_workers :
    Job → Option ReplicaStatus → Option ReplicaSpec → Option ReplicaStatus → Flow → Flow
then_workers j launcher spec workers (next r) = follow_workers j launcher spec workers r
then_workers j launcher spec workers f = f

-- UpdateJobStatus.
unfoldable pub update_job_status : ℕ → String → Specs → Bool → Bool → JobStatus → Flow
update_job_status now name specs restart was_evicted s =
    let j : Job = record {
      now = now;
      name = name;
      restart = restart;
      was_evicted = was_evicted;
      previous = record { was_restarting = is_restarting s; was_failed = is_failed s };
    } in
    let launcher = lookup "Launcher" s.replica_statuses in
    then_workers j launcher (lookup "Worker" specs) (lookup "Worker" s.replica_statuses)
      (follow_launcher j launcher (start s))
