-- ===== src/Rollup/Mpi/Ends.antt =====
-- When an MPIJob ends.
use kubedl.Prelude.{
  ℕ, String, Bool, true, not, ◌&&◌, ◌||◌, Option, none, some, ◌≡◌, refl, sym, arith, inl, inr, ltb,
  ◌==◌, if◌then◌else◌, if_rule, is_some, false,
}
use mathlib.Core.Path.{subst}
use kubedl.Prelude.Map.{lookup}
use kubedl.Api.{succeeded, failed, JobStatus, ReplicaSpec, ReplicaStatus}
use kubedl.Conditions.{
  is_failed, is_restarting, job_evicted_reason, job_failed_reason, job_succeeded_reason,
}
use kubedl.Conditions.Invariant.{is_finished}
use kubedl.Rollup.{
  Roll, Specs, Flow, next, returned, refused, panics, start, complete, mark_succeeded,
}
use kubedl.Rollup.Finishes.{ends_by, update_stays, running_stays, restarting_stays}
use kubedl.Rollup.Mpi.{
  Job, fail_launcher, follow_launcher, note_evicted, is_launched, react, follow_workers,
  then_workers, update_job_status,
}

abbrev pub HasEnded : Roll → Type 0
HasEnded r = is_finished r.status ≡ true

fail_launcher-HasEnded : (j : Job) (st : ReplicaStatus) (r : Roll) → HasEnded (fail_launcher j st r)
unfolding fail_launcher
fail_launcher-HasEnded j st r =
    ends_by j.now
      (if ltb 0 st.evicted
        then r.status
        else if not j.was_evicted
        then complete j.now r.status
        else r.status)
      failed (if ltb 0 st.evicted then job_evicted_reason else job_failed_reason) _ (inl refl)

mark_succeeded-HasEnded : (now : ℕ) (msg : String) (r : Roll) → HasEnded (mark_succeeded now msg r)
unfolding mark_succeeded
mark_succeeded-HasEnded now msg r =
    ends_by now (complete now r.status) succeeded job_succeeded_reason msg (inr refl)

-- How an update may end with a panic: the workers have a status and no specification.
abbrev pub Unspecified : Option ReplicaSpec → Option ReplicaStatus → Type 0
Unspecified spec workers = (is_some spec ≡ false) × (is_some workers ≡ true)

-- The update leaves the job finished, or panics for want of a specification.
abbrev pub Ended : Option ReplicaSpec → Option ReplicaStatus → Flow → Type 0
Ended spec workers (next r) = HasEnded r
Ended spec workers (returned r) = HasEnded r
Ended spec workers (refused r) = HasEnded r
Ended spec workers panics = Unspecified spec workers

-- The launcher leaves the job finished, without a panic.
abbrev Finished : Flow → Type 0
Finished (next r) = HasEnded r
Finished (returned r) = HasEnded r
Finished (refused r) = HasEnded r
Finished panics = ⊥

follow_launcher-HasEnded :
    (j : Job) (st : ReplicaStatus) (r : Roll)
    → (ltb 0 st.succeeded || ltb 0 st.failed) ≡ true
    → Finished (follow_launcher j (some st) r)
unfolding follow_launcher
follow_launcher-HasEnded j st r h =
    if_rule Finished (ltb 0 st.succeeded) (λ _. mark_succeeded-HasEnded j.now _ r)
      (λ n.
        if_rule Finished (ltb 0 st.failed) (λ _. fail_launcher-HasEnded j st r)
          (λ m. absurd (ground arith)))

note_evicted-HasEnded :
    (j : Job) (workers : ℕ) (st : ReplicaStatus) (r : Roll)
    → HasEnded r
    → HasEnded (note_evicted j workers st r)
unfolding note_evicted
note_evicted-HasEnded j workers st r h =
    if_rule HasEnded (ltb 0 st.evicted)
      (λ _. update_stays j.now r.status failed job_evicted_reason _ h) (λ _. h)

react-HasEnded :
    (j : Job) (launcher : Option ReplicaStatus) (workers : ℕ) (st : ReplicaStatus) (r : Roll)
    → HasEnded r
    → HasEnded (react j launcher workers st r)
unfolding react
react-HasEnded j launcher workers st r h =
    if_rule HasEnded (ltb 0 st.failed && j.restart)
      (λ _. restarting_stays j.now r h _ _ _ j.previous)
      (λ _.
        if_rule HasEnded (is_launched launcher && st.active == workers)
          (λ _. running_stays j.now r h _) (λ _. h))

follow_workers-HasEnded :
    (j : Job) (launcher : Option ReplicaStatus) (spec : Option ReplicaSpec)
    (workers : Option ReplicaStatus) (r : Roll)
    → HasEnded r
    → Ended spec workers (follow_workers j launcher spec workers r)
unfolding follow_workers
follow_workers-HasEnded j launcher spec none r h = h
follow_workers-HasEnded j launcher none (some st) r h = (refl, refl)
follow_workers-HasEnded j launcher (some spec) (some st) r h =
    react-HasEnded j launcher spec.replicas st (note_evicted j spec.replicas st r)
      (note_evicted-HasEnded j spec.replicas st r h)

then_workers-HasEnded :
    (j : Job) (launcher : Option ReplicaStatus) (spec : Option ReplicaSpec)
    (workers : Option ReplicaStatus) (f : Flow)
    → Finished f
    → Ended spec workers (then_workers j launcher spec workers f)
then_workers-HasEnded j launcher spec workers (next r) h =
    follow_workers-HasEnded j launcher spec workers r h
then_workers-HasEnded j launcher spec workers (returned r) h = h
then_workers-HasEnded j launcher spec workers (refused r) h = h
then_workers-HasEnded j launcher spec workers panics h = absurd h

-- When the launcher of an MPIJob has succeeded or failed, the update of the status leaves the job
-- finished, whatever its workers do, evicted, failed and restarting ones included; or it panics, and
-- then there is a status of workers but no specification of them.
pub update_job_status-HasEnded :
    (now : ℕ) (name : String) (specs : Specs) (restart was_evicted : Bool) (s : JobStatus)
    (st : ReplicaStatus)
    → lookup "Launcher" s.replica_statuses ≡ some st
    → (ltb 0 st.succeeded || ltb 0 st.failed) ≡ true
    → Ended
        (lookup "Worker" specs)
        (lookup "Worker" s.replica_statuses)
        (update_job_status now name specs restart was_evicted s)
unfolding update_job_status
update_job_status-HasEnded now name specs restart was_evicted s st e h =
    let j : Job = record {
      now = now;
      name = name;
      restart = restart;
      was_evicted = was_evicted;
      previous = record { was_restarting = is_restarting s; was_failed = is_failed s };
    } in
    let launcher = lookup "Launcher" s.replica_statuses in
    then_workers-HasEnded j launcher (lookup "Worker" specs) (lookup "Worker" s.replica_statuses)
      (follow_launcher j launcher (start s))
      (subst (λ o. Finished (follow_launcher j o (start s))) (sym e)
        (follow_launcher-HasEnded j st (start s) h))
