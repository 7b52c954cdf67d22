-- ===== src/Kube.antt =====
-- The Kubernetes objects that the controllers read, with the fields that they use. The types are
-- those of k8s.io/api/core/v1; pkg/job_controller/api/v1/constants.go names the labels.
use kubedl.Prelude.{
  ℕ, String, Bool, true, false, not, ◌&&◌, Option, none, some, List, [], ◌∷◌, str_eq, is_some,
  if◌then◌else◌,
}
use kubedl.Prelude.Int.{ℤ}
use kubedl.Prelude.Atoi.{atoi}
use kubedl.Prelude.Map.{lookup}
use kubedl.Api.{PodPhase, phase_eq}

abbrev pub Labels : Type 0
Labels = List (String × String)

-- `terminated` is the exit code of a container that has ended.
pub record ContainerStatus : Type 0 where
  pub name : String
  pub is_running : Bool
  pub terminated : Option ℕ
  pub restart_count : ℕ

pub record Pod : Type 0 where
  pub name : String
  pub uid : String
  pub labels : Labels
  pub finalizers : List String
  pub phase : PodPhase
  pub reason : String
  pub node_name : String
  pub deletion_timestamp : Option ℕ
  pub start_time : Option ℕ
  pub container_statuses : List ContainerStatus
  pub init_container_statuses : List ContainerStatus

abbrev pub replica_type_label : String
replica_type_label = "replica-type"

abbrev pub replica_index_label : String
replica_index_label = "replica-index"

abbrev pub finalizer_preempt_protector : String
finalizer_preempt_protector = "kubedl.io/preempt-protector"

-- The exit code of a container that has not ended: 0xbeef.
abbrev pub initial_exit_code : ℕ
initial_exit_code = 0xbeef

-- The loop that looks for the exit code of the default container.
unfoldable pub exit_code_of : String → List ContainerStatus → ℕ
exit_code_of container [] = initial_exit_code
exit_code_of container (c ∷ cs) =
    let rest = exit_code_of container cs in
    elim c.terminated [ none ↦ rest | some code ↦ if str_eq c.name container then code else rest ]

-- strconv.Atoi of the index label. A missing label reads as the empty text, which is no number.
unfoldable pub index_of : Labels → Option ℤ
index_of labels = elim (lookup replica_index_label labels) [ none ↦ none | some l ↦ atoi l ]

-- IsPodActive.
unfoldable pub is_pod_active : Pod → Bool
is_pod_active p =
    not (phase_eq p.phase PodPhase.succeeded)
    && not (phase_eq p.phase PodPhase.failed)
    && not (is_some p.deletion_timestamp)

-- HasFinalizer.
unfoldable pub has_finalizer : List String → String → Bool
has_finalizer [] target = false
has_finalizer (f ∷ fs) target =
    let rest = has_finalizer fs target in if str_eq f target then true else rest

-- IsVictimCandidatePod.
unfoldable pub is_victim_candidate_pod : Pod → Bool
is_victim_candidate_pod p =
    is_some p.deletion_timestamp && has_finalizer p.finalizers finalizer_preempt_protector
