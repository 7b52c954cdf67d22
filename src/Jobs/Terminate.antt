-- ===== src/Jobs/Terminate.antt =====
-- The branch of ReconcileJobs (pkg/job_controller/job.go) for a job that has finished or is past a
-- limit.
use kubedl.Prelude.{
  ℕ, ◌+◌, String, Bool, true, false, ◌||◌, Option, none, some, List, [], ◌∷◌, ◌++◌, if◌then◌else◌,
}
use kubedl.Prelude.Format.{◌<>◌}
use kubedl.Api.{failed, JobStatus, ReplicaStatus}
use kubedl.Conditions.{is_failed, is_succeeded, update_job_conditions, job_failed_reason}
use kubedl.Kube.{Pod}
use kubedl.Rollup.{complete}
use kubedl.Jobs.{
  RunPolicy, Limit, within_limits, past_deadline, JobCall, delete_job, delete_pods_and_services,
  CleanUp, no_ttl, no_completion_time, delete_refused, job_deleted, requeue_after, cleanup_job,
}

-- What the API server and the other components answer: to the deletions of pods, of services and of
-- the job, to that of the gang (true where there is none), to the making of the model version (an
-- error, or the name it gives the version if it makes one), and to the update of the cache.
pub record Answers : Type 0 where
  pub pods : String → Bool
  pub services : String → Bool
  pub job : Bool
  pub gang : Bool
  pub model : Option (Option String)
  pub cache : Bool

-- How the branch ends: with an error, having written no status, or with the status that is written
-- if it has changed; and the deletions made.
pub data Ended : Type 0 where
  stopped : List JobCall → Ended
  to_write : JobStatus → List JobCall → Ended

-- A deadline that has passed sets the completion time, whether or not there is one.
unfoldable pub on_deadline : ℕ → Limit → JobStatus → JobStatus
on_deadline now past_deadline s = record s { completion_time = some now }
on_deadline now _ s = s

abbrev pub failure_message : String → Limit → String
failure_message name past_deadline =
    "Job " <> name <> " has failed because it was active longer than specified deadline"
failure_message name _ =
    "Job " <> name <> " has failed because it has reached the specified backoff limit"

abbrev pub exceeds : Limit → Bool
exceeds within_limits = false
exceeds _ = true

-- A job past a limit fails.
unfoldable pub fail_job : ℕ → String → Limit → JobStatus → JobStatus
fail_job now name limit s =
    let end =
      update_job_conditions now (complete now s) failed job_failed_reason
        (failure_message name limit) in
    if exceeds limit then end else s

unfoldable pub settle : List (String × ReplicaStatus) → List (String × ReplicaStatus)
settle [] = []
settle ((t, st) ∷ rest) =
    (t, record st { succeeded = st.succeeded + st.active; active = 0 }) ∷ settle rest

abbrev pub named : Option String → JobStatus → JobStatus
named none s = s
named (some n) s = record s { model_version_name = n }

-- The part after the deletions.
unfoldable pub end_job : ℕ → Answers → String → Limit → List JobCall → JobStatus → Ended
end_job now answers name limit calls s =
    let s₁ = fail_job now name limit s in
    let settled : JobStatus = record s₁ { replica_statuses = settle s₁.replica_statuses } in
    let with_model : Ended = elim answers.model [
      | none ↦ stopped calls
      | some n ↦ if answers.cache then to_write (named n settled) calls else stopped calls
    ] in
    if is_succeeded s₁
    then with_model
    else if answers.cache
    then to_write s₁ calls
    else stopped calls

abbrev pub after_cleanup : ℕ → Answers → String → Limit → List JobCall → JobStatus → CleanUp → Ended
after_cleanup now answers name limit calls s no_completion_time = stopped calls
after_cleanup now answers name limit calls s delete_refused = stopped (calls ++ delete_job ∷ [])
after_cleanup now answers name limit calls s job_deleted =
    if answers.gang
    then end_job now answers name limit (calls ++ delete_job ∷ []) s
    else stopped (calls ++ delete_job ∷ [])
after_cleanup now answers name limit calls s no_ttl =
    if answers.gang then end_job now answers name limit calls s else stopped calls
after_cleanup now answers name limit calls s (requeue_after n) =
    if answers.gang then end_job now answers name limit calls s else stopped calls

-- The whole branch, from the status before the test of the limits. The clean-up reads the clock again,
-- `later`.
unfoldable pub terminate :
    ℕ → ℕ → Answers → String → RunPolicy → Limit → List Pod → JobStatus → Ended
terminate now later answers name policy limit ps s =
    let s₀ = on_deadline now limit s in
    let d = delete_pods_and_services answers.pods answers.services policy.clean_pod_policy ps in
    if d.error
    then stopped d.calls
    else after_cleanup now answers name limit d.calls s₀ (cleanup_job later answers.job policy s₀)

-- Whether ReconcileJobs takes this branch.
unfoldable pub is_terminated : Limit → JobStatus → Bool
is_terminated limit s = is_succeeded s || is_failed s || exceeds limit
