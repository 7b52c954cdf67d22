-- ===== src/Rollup/Tests.antt =====
-- A TFJob with one chief that has succeeded and two workers of which one has failed.
use kubedl.Prelude.{ℕ, true, false, none, some, [], ◌∷◌, ◌≡◌, refl, arith}
use mathlib.Core.List.{Memᴰ}
use kubedl.Prelude.Map.{lookup, has_key}
use kubedl.Api.{never, ReplicaSpec, ReplicaStatus, JobStatus, type_eq, status_eq}
use kubedl.Conditions.{is_succeeded, any_true, has_condition}
use kubedl.Conditions.Invariant.{is_finished}
use kubedl.Conditions.Tests.{empty_status}
use kubedl.Rollup.{Specs, contains_replica_type}
use kubedl.Rollup.Laws.{FlowAll}
use kubedl.Rollup.Keeps.{IsSound}
use kubedl.Rollup.Reaches.{GoesOn}
use kubedl.Rollup.Tensorflow as Tf
use kubedl.Rollup.Tensorflow.Succeeds.{
  SucceedsBy, update_general_job_status-IsSound, update_general_job_status-SucceedsBy,
}
use kubedl.Rollup.Xdl as Xdl
use kubedl.Rollup.XgBoost as Xgb
use kubedl.Rollup.XgBoost.Restarts.{IsSettled, update_job_status-IsSettled}
use kubedl.Rollup.Mpi as Mpi
use kubedl.Rollup.Mpi.Ends.{Ended, update_job_status-HasEnded}
use kubedl.Rollup.Tensorflow.Fails.{update_general_job_status_ends}

program : Unit {0}
unfolding type_eq status_eq any_true has_condition lookup has_key contains_replica_type Tf.has_chief
    Tf.job_of
program = tt

abbrev replicas : ℕ → ReplicaSpec
replicas n = record { replicas = n; spot = none; restart_policy = never; depend_on = [] }

abbrev counts : ℕ → ℕ → ℕ → ReplicaStatus
counts a s f = record { active = a; succeeded = s; failed = f; evicted = 0 }

abbrev specs : Specs
specs = ("Chief", replicas 1) ∷ ("Worker", replicas 2) ∷ []

abbrev status : JobStatus
status = record empty_status {
  replica_statuses = ("Chief", counts 0 1 0) ∷ ("Worker", counts 1 0 1) ∷ [];
}

status-IsSound : IsSound status.replica_statuses status
unfolding program
status-IsSound = record {
  well = record {
    distinct = λ t. omega arith;
    exclusive = omega arith;
    one_end = refl;
    not_running = λ h. refl;
  };
  same = refl;
  ended = λ h. absurd (cc);
}

status_open : is_succeeded status ≡ false
unfolding program
status_open = refl

has_chief_here : Tf.has_chief (Tf.job_of 5 "mnist" none specs false [] status) ≡ true
unfolding program
has_chief_here = refl

workers_here : lookup "Worker" status.replica_statuses ≡ some (counts 1 0 1)
unfolding program
workers_here = refl

update_general_job_status-IsSound_example :
    FlowAll
      (λ r. IsSound status.replica_statuses r.status)
      (Tf.update_general_job_status 5 "mnist" none specs false (some []) status)
update_general_job_status-IsSound_example =
    update_general_job_status-IsSound 5 "mnist" none specs false (some []) status status-IsSound

update_general_job_status-SucceedsBy_example :
    FlowAll
      (λ r.
        is_succeeded r.status ≡ true
        → SucceedsBy status.replica_statuses (Tf.job_of 5 "mnist" none specs false [] status))
      (Tf.update_general_job_status 5 "mnist" none specs false (some []) status)
update_general_job_status-SucceedsBy_example =
    update_general_job_status-SucceedsBy 5 "mnist" none specs false [] status status_open

update_general_job_status_ends_example :
    GoesOn
      (λ r. is_finished r.status ≡ true)
      (Tf.update_general_job_status 5 "mnist" none specs false (some []) status)
update_general_job_status_ends_example =
    update_general_job_status_ends 5 "mnist" none specs false [] status "Worker" (replicas 2)
      (counts 1 0 1) has_chief_here (Memᴰ.tail (Memᴰ.head refl)) workers_here (omega arith) refl

update_job_status-IsSettled_example :
    FlowAll IsSettled (Xgb.update_job_status 5 "mnist" none specs true status)
update_job_status-IsSettled_example =
    update_job_status-IsSettled 5 "mnist" none specs true status status-IsSound.well

abbrev mpi_status : JobStatus
mpi_status = record empty_status {
  replica_statuses = ("Launcher", counts 0 0 1) ∷ ("Worker", counts 1 0 1) ∷ [];
}

launched : lookup "Launcher" mpi_status.replica_statuses ≡ some (counts 0 0 1)
unfolding program
launched = refl

update_job_status-HasEnded_example :
    Ended
      (lookup "Worker" specs)
      (lookup "Worker" mpi_status.replica_statuses)
      (Mpi.update_job_status 5 "mnist" specs true false mpi_status)
update_job_status-HasEnded_example =
    update_job_status-HasEnded 5 "mnist" specs true false mpi_status (counts 0 0 1) launched refl
