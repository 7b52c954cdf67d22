-- ===== src/Rollup/Mars.antt =====
-- controllers/mars/status.go: the status of a MarsJob.
use kubedl.Prelude.{
  ℕ, String, Bool, true, false, ◌&&◌, none, some, [], ◌∷◌, if◌then◌else◌, str_eq, ltb, ◌==◌,
}
use kubedl.Prelude.Map.{lookup}
use kubedl.Prelude.Format.{◌<>◌}
use kubedl.Api.{JobStatus, ReplicaStatus}
use kubedl.Conditions.{is_failed, is_restarting}
use kubedl.Rollup.{
  Roll, Previous, Specs, start, acknowledge, mark_running, mark_succeeded, mark_restarting,
  mark_failed, replicas_msg,
}

abbrev pub replica_type_scheduler : String
replica_type_scheduler = "Scheduler"

abbrev pub replica_type_worker : String
replica_type_worker = "Worker"

pub record Job : Type 0 where
  pub now : ℕ
  pub name : String
  pub restart : Bool
  pub previous : Previous

-- A failed scheduler fails the job. A failed replica of another type restarts it, or changes
-- nothing.
unfoldable pub react : Job → String → ReplicaStatus → Roll → Roll
react j rtype st r =
    let again =
      mark_restarting j.now "MarsJobRestarting" "MarsJobRestarting"
        (replicas_msg "MarsJob" j.name "restarting" st.failed rtype "") j.previous r in
    if str_eq rtype replica_type_scheduler
    then mark_failed j.now "MarsJobFailed" "MarsJobFailed"
        (replicas_msg "MarsJob" j.name "failed" st.failed rtype "") j.previous r
    else if j.restart
    then again
    else r

unfoldable pub conclude : Job → ℕ → Roll → Roll
conclude j workers r =
    if ltb 0 workers then mark_running j.now ("MarsJob " <> j.name <> " is running.") r else r

-- The loop with the number of running workers. It stops at a failed type and at a scheduler whose
-- replicas have all succeeded.
unfoldable pub run : Job → Specs → ℕ → Roll → Roll
run j [] workers r = conclude j workers r
run j ((rtype, spec) ∷ rest) workers r = elim (lookup rtype r.status.replica_statuses) [
  | none ↦ run j rest workers r
  | some st ↦
      let workers' = if str_eq rtype replica_type_worker then st.active else workers in
      elim (ltb 0 st.failed) [
        | true ↦ react j rtype st r
        | false ↦ elim (str_eq rtype replica_type_scheduler && st.succeeded == spec.replicas) [
          | true ↦ mark_succeeded j.now ("MarsJob " <> j.name <> " has successfully completed.") r
          | false ↦ run j rest workers' r
        ]
      ]
]

-- updateGeneralJobStatus.
unfoldable pub update_general_job_status : ℕ → String → Specs → Bool → JobStatus → Roll
update_general_job_status now name specs restart s =
    run
      (record {
        now = now;
        name = name;
        restart = restart;
        previous = record { was_restarting = is_restarting s; was_failed = is_failed s };
      })
      specs 0 (start (acknowledge now s))
