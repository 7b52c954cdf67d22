-- ===== src/Failover.antt =====
-- pkg/job_controller/failover.go and pkg/util/train/train_util.go: which pods are replaced, and how
-- the containers of a pod are restarted in place.
pub mod InPlace
mod Tests
use kubedl.Prelude.{
  ℕ, String, Bool, true, false, not, ◌&&◌, ◌||◌, Option, none, some, List, [], ◌∷◌, ◌==◌, str_eq,
  if◌then◌else◌,
}
use kubedl.Api.{ReplicaSpec, RestartPolicy}
use kubedl.Kube.{Pod}

-- IsRetryableExitCode.
unfoldable pub is_retryable_exit_code : ℕ → Bool
is_retryable_exit_code code =
    if code == 1 || code == 2 || code == 126 || code == 127 || code == 128 || code == 139
    then false
    else if code == 130 || code == 137 || code == 143
    then true
    else if code == 138
    then true
    else false

-- IsRetryablePodFailedReason.
unfoldable pub is_retryable_pod_failed_reason : String → Bool
is_retryable_pod_failed_reason reason =
    str_eq reason "OOMKilled"
    || str_eq reason "Killed"
    || str_eq reason "Evicted"
    || str_eq reason "UnexpectedAdmissionError"

abbrev pub is_exit_code_policy : RestartPolicy → Bool
is_exit_code_policy RestartPolicy.exit_code = true
is_exit_code_policy _ = false

-- ShouldPodFailOver.
unfoldable pub should_pod_fail_over : ReplicaSpec → Pod → ℕ → Bool
should_pod_fail_over spec p code =
    if not (is_exit_code_policy spec.restart_policy)
    then false
    else is_retryable_exit_code code || is_retryable_pod_failed_reason p.reason

-- The phases of a ContainerRecreateRequest of OpenKruise that the code tests, and any other.
pub data RequestPhase : Type 0 where
  request_pending request_completed request_succeeded request_failed : RequestPhase

-- A request of the generation in its label.
pub record RecreateRequest : Type 0 where
  pub generation : String
  pub phase : RequestPhase

-- What the API server answers to the Get of the request.
pub data Answer : Type 0 where
  found : RecreateRequest → Answer
  not_found : Answer
  get_failed : Answer

-- The calls that change the cluster, in their order.
pub data Call : Type 0 where
  create_request delete_request delete_pod : Call

pub record Restart : Type 0 where
  pub completed : Bool
  pub error : Bool
  pub calls : List Call

-- Which of the calls the API server accepts.
pub record Server : Type 0 where
  pub creates : Bool
  pub deletes_request : Bool
  pub deletes_pod : Bool

abbrev pub outcome : Bool → Bool → List Call → Restart
outcome completed error calls = record { completed = completed; error = error; calls = calls }

abbrev pub is_done : RequestPhase → Bool
is_done request_completed = true
is_done request_succeeded = true
is_done _ = false

abbrev pub is_failed_request : RequestPhase → Bool
is_failed_request request_failed = true
is_failed_request _ = false

-- A request that is found: one of an earlier generation is replaced; a failed one ends in the
-- deletion of the pod; a finished one is deleted at the end, whether or not that works.
unfoldable pub restart_with : Server → String → RecreateRequest → Restart
restart_with s generation r =
    if not (str_eq r.generation generation)
    then (if s.deletes_request
        then outcome false (not s.creates) (delete_request ∷ create_request ∷ [])
        else outcome false true (delete_request ∷ []))
    else if is_failed_request r.phase
    then outcome s.deletes_pod (not s.deletes_pod) (delete_pod ∷ [])
    else if is_done r.phase
    then outcome true false (delete_request ∷ [])
    else outcome false false []

-- RestartPod.
unfoldable pub restart_pod : Server → String → Answer → Restart
restart_pod s generation (found r) = restart_with s generation r
restart_pod s generation not_found = outcome false (not s.creates) (create_request ∷ [])
restart_pod s generation get_failed = outcome false true []
