-- ===== src/Jobs.antt =====
-- pkg/job_controller/job.go: the limits of a job, and the end of a job that has finished or has gone
-- past a limit.
pub mod Terminate
pub mod Limits
pub mod Ends
pub mod Cleans
pub mod Reconcile
mod Tests
use kubedl.Prelude.{
  ℕ, ◌+◌, ◌-◌, ◌*◌, ◌%◌, String, Bool, true, false, not, ◌&&◌, ◌||◌, Option, none, some, List, [],
  ◌∷◌, ◌++◌, ◌==◌, ltb, leb, length, if◌then◌else◌,
}
use kubedl.Prelude.Int.{ℤ, pos, negsuc, sub_ℕ, ltb_ℤ}
use kubedl.Prelude.Text.{to_lower}
use kubedl.Api.{
  JobStatus, ReplicaSpec, ReplicaStatus, RestartPolicy, CleanPodPolicy, all_pods, running_pods,
  no_pods, undefined, PodPhase, phase_eq,
}
use kubedl.Conditions.{is_failed, is_succeeded, update_job_conditions, job_failed_reason}
use kubedl.Kube.{Pod, ContainerStatus, is_pod_active}
use kubedl.Pods.{filter_pods_for_replica_type}
use kubedl.Rollup.{Specs, complete, or_now}

-- RunPolicy. The pointer to the clean-pod policy is set by the defaulting of every job kind.
pub record RunPolicy : Type 0 where
  pub clean_pod_policy : CleanPodPolicy
  pub ttl_seconds_after_finished : Option ℕ
  pub active_deadline_seconds : Option ℕ
  pub backoff_limit : Option ℕ

-- Times and durations are in nanoseconds.
abbrev pub second : ℕ
second = 1000000000

-- An int64 from its bits.
unfoldable pub to_int64 : ℕ → ℤ
to_int64 n =
    let bits = n % 18446744073709551616 in
    if ltb bits 9223372036854775808 then pos bits else negsuc (18446744073709551615 - bits)

-- pastActiveDeadline. The duration may be negative, and so may the allowed one after an overflow.
unfoldable pub past_active_deadline : ℕ → RunPolicy → JobStatus → Bool
past_active_deadline now p s = elim p.active_deadline_seconds [
  | none ↦ false
  | some deadline ↦ elim s.start_time [
    | none ↦ false
    | some start ↦ not (ltb_ℤ (sub_ℕ now start) (to_int64 (deadline * second)))
  ]
]

unfoldable pub restarts : List ContainerStatus → ℕ
restarts [] = 0
restarts (c ∷ cs) = c.restart_count + restarts cs

unfoldable pub pod_restarts : List Pod → ℕ
pod_restarts [] = 0
pod_restarts (p ∷ ps) =
    let rest = pod_restarts ps in
    if phase_eq p.phase PodPhase.running
    then restarts p.init_container_statuses + restarts p.container_statuses + rest
    else rest

abbrev pub restarts_in_place : RestartPolicy → Bool
restarts_in_place RestartPolicy.on_failure = true
restarts_in_place RestartPolicy.always = true
restarts_in_place _ = false

unfoldable pub total_restarts : List Pod → Specs → ℕ
total_restarts ps [] = 0
total_restarts ps ((t, spec) ∷ rest) =
    let later = total_restarts ps rest in
    if restarts_in_place spec.restart_policy
    then pod_restarts (filter_pods_for_replica_type ps (to_lower t)) + later
    else later

-- pastBackoffLimit.
unfoldable pub past_backoff_limit : RunPolicy → Specs → List Pod → Bool
past_backoff_limit p specs ps = elim p.backoff_limit [
  | none ↦ false
  | some limit ↦ let n = total_restarts ps specs in if limit == 0 then ltb 0 n else leb limit n
]

-- FilterPodCount, GetTotalReplicas, GetTotalFailedReplicas and the length of FilterActivePods.
unfoldable pub filter_pod_count : List Pod → PodPhase → ℕ
filter_pod_count [] phase = 0
filter_pod_count (p ∷ ps) phase =
    let rest = filter_pod_count ps phase in if phase_eq phase p.phase then rest + 1 else rest

unfoldable pub active_pod_count : List Pod → ℕ
active_pod_count [] = 0
active_pod_count (p ∷ ps) =
    let rest = active_pod_count ps in if is_pod_active p then rest + 1 else rest

unfoldable pub get_total_replicas : Specs → ℕ
get_total_replicas [] = 0
get_total_replicas ((t, spec) ∷ rest) = spec.replicas + get_total_replicas rest

unfoldable pub get_total_failed_replicas : List (String × ReplicaStatus) → ℕ
get_total_failed_replicas [] = 0
get_total_failed_replicas ((t, st) ∷ rest) = st.failed + get_total_failed_replicas rest

-- GetTotalAvtiveReplicas.
unfoldable pub get_total_active_replicas : List (String × ReplicaStatus) → ℕ
get_total_active_replicas [] = 0
get_total_active_replicas ((t, st) ∷ rest) = st.active + get_total_active_replicas rest

-- The limit of retries: a new failure, with pods missing, at the last retry.
unfoldable pub exceeds_backoff_limit : ℕ → RunPolicy → Specs → List Pod → JobStatus → Bool
exceeds_backoff_limit previous_retry p specs ps s = elim p.backoff_limit [
  | none ↦ false
  | some limit ↦
      ltb (get_total_failed_replicas s.replica_statuses) (filter_pod_count ps PodPhase.failed)
      && not (active_pod_count ps == get_total_replicas specs)
      && ltb limit (previous_retry + 1)
]

pub data Limit : Type 0 where
  within_limits past_backoff past_deadline : Limit

-- Which limit a job is past, in the order of the tests.
unfoldable pub job_limit : ℕ → ℕ → RunPolicy → Specs → List Pod → JobStatus → Limit
job_limit now previous_retry p specs ps s =
    if exceeds_backoff_limit previous_retry p specs ps s || past_backoff_limit p specs ps
    then past_backoff
    else if past_active_deadline now p s
    then past_deadline
    else within_limits

-- The calls that change the cluster.
pub data JobCall : Type 0 where
  delete_pod : String → JobCall
  delete_service : String → JobCall
  delete_job : JobCall

-- The calls made, and whether the last one failed.
pub record Deletions : Type 0 where
  pub calls : List JobCall
  pub error : Bool

unfoldable pub wants_deletion : CleanPodPolicy → Pod → Bool
wants_deletion running_pods p = phase_eq p.phase PodPhase.running
wants_deletion no_pods p = false
wants_deletion _ p = true

abbrev pub before : List JobCall → Deletions → Deletions
before cs d = record d { calls = cs ++ d.calls }

-- deletePodsAndServices. `pods` and `services` say which deletions the API server accepts; the
-- first one that it refuses ends the loop.
unfoldable pub delete_pods_and_services :
    (String → Bool) → (String → Bool) → CleanPodPolicy → List Pod → Deletions
delete_pods_and_services pods services policy [] = record { calls = []; error = false }
delete_pods_and_services pods services policy (p ∷ ps) =
    let rest = delete_pods_and_services pods services policy ps in
    let after_service : Deletions =
      if services p.name
      then before (delete_pod p.name ∷ delete_service p.name ∷ []) rest
      else record { calls = delete_pod p.name ∷ delete_service p.name ∷ []; error = true } in
    let after_pod : Deletions =
      if pods p.name
      then after_service
      else record { calls = delete_pod p.name ∷ []; error = true } in
    if wants_deletion policy p then after_pod else rest

-- How cleanupJob ends.
pub data CleanUp : Type 0 where
  no_ttl no_completion_time delete_refused job_deleted : CleanUp
  requeue_after : ℕ → CleanUp

-- cleanupJob. `accepts` is the answer of the API server to the deletion of the job.
unfoldable pub cleanup_job : ℕ → Bool → RunPolicy → JobStatus → CleanUp
cleanup_job now accepts p s = elim p.ttl_seconds_after_finished [
  | none ↦ no_ttl
  | some ttl ↦ elim s.completion_time [
    | none ↦ no_completion_time
    | some t ↦
        if ltb (t + ttl * second) now
        then (if accepts then job_deleted else delete_refused)
        else requeue_after (t + ttl * second - now)
  ]
]
