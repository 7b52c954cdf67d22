-- ===== src/Api.antt =====
-- pkg/job_controller/api/v1/types.go: the status of a job and the policies of its specification.
use kubedl.Prelude.{ℕ, String, Bool, true, false, Option, List}

-- JobConditionType, by its six constants.
pub data JobConditionType : Type 0 where
  created queuing running restarting succeeded failed : JobConditionType

-- corev1.ConditionStatus.
pub data ConditionStatus : Type 0 where
  condition_true condition_false condition_unknown : ConditionStatus

pub record JobCondition : Type 0 where
  pub type : JobConditionType
  pub status : ConditionStatus
  pub reason : String
  pub message : String
  pub last_update_time : ℕ
  pub last_transition_time : ℕ

-- The counters are int32 in the source. They count pods from zero, so they stay below 2^31.
pub record ReplicaStatus : Type 0 where
  pub active : ℕ
  pub succeeded : ℕ
  pub failed : ℕ
  pub evicted : ℕ

pub record JobStatus : Type 0 where
  pub conditions : List JobCondition
  pub replica_statuses : List (String × ReplicaStatus)
  pub start_time : Option ℕ
  pub completion_time : Option ℕ
  pub last_reconcile_time : Option ℕ
  pub model_version_name : String
  pub cache_backend_name : String

pub data RestartPolicy : Type 0 where
  always on_failure never exit_code : RestartPolicy

pub data CleanPodPolicy : Type 0 where
  undefined all_pods running_pods no_pods : CleanPodPolicy

pub data SuccessPolicy : Type 0 where
  default_policy all_workers : SuccessPolicy

unfoldable pub success_policy_eq : SuccessPolicy → SuccessPolicy → Bool
success_policy_eq default_policy default_policy = true
success_policy_eq all_workers all_workers = true
success_policy_eq _ _ = false

-- corev1.PodPhase. The empty phase is that of a pod with no status yet.
pub data PodPhase : Type 0 where
  pending running succeeded failed unknown unset : PodPhase

pub record DagCondition : Type 0 where
  pub upstream : String
  pub on_phase : PodPhase

pub record SpotReplicaSpec : Type 0 where
  pub spot_replica_number : ℕ
  pub priority_class_name : String
  pub labels : List (String × String)

-- The controllers dereference the pointer to the number of replicas without a test, so it is a
-- number. DependOn keeps its order.
pub record ReplicaSpec : Type 0 where
  pub replicas : ℕ
  pub spot : Option SpotReplicaSpec
  pub restart_policy : RestartPolicy
  pub depend_on : List DagCondition

abbrev pub replica_type_ai_master : String
replica_type_ai_master = "AIMaster"

-- Comparison of the enumerations, which are strings in the source.
unfoldable pub type_eq : JobConditionType → JobConditionType → Bool
type_eq created created = true
type_eq queuing queuing = true
type_eq running running = true
type_eq restarting restarting = true
type_eq succeeded succeeded = true
type_eq failed failed = true
type_eq _ _ = false

unfoldable pub status_eq : ConditionStatus → ConditionStatus → Bool
status_eq condition_true condition_true = true
status_eq condition_false condition_false = true
status_eq condition_unknown condition_unknown = true
status_eq _ _ = false

unfoldable pub phase_eq : PodPhase → PodPhase → Bool
phase_eq pending pending = true
phase_eq running running = true
phase_eq succeeded succeeded = true
phase_eq failed failed = true
phase_eq unknown unknown = true
phase_eq unset unset = true
phase_eq _ _ = false
