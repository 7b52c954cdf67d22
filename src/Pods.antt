-- ===== src/Pods.antt =====
-- pkg/job_controller/pod.go and status.go: how the pods of one replica type are reconciled with its
-- specification, and how they are counted in the status of the job.
pub mod Slots
pub mod Tally
pub mod Creates
mod Tests
use kubedl.Prelude.{
  ℕ, zero, suc, ◌+◌, String, Bool, true, false, not, ◌&&◌, ◌||◌, Option, none, some, List, [], ◌∷◌,
  ◌++◌, map, ◌==◌, ltb, leb, str_eq, is_some, length, if◌then◌else◌,
}
use kubedl.Prelude.Int.{ℤ, pos, negsuc}
use kubedl.Prelude.Map.{lookup, insert}
use kubedl.Prelude.Text.{to_lower}
use kubedl.Api.{JobStatus, ReplicaSpec, ReplicaStatus, PodPhase, phase_eq, replica_type_ai_master}
use kubedl.Kube.{
  Pod, Labels, ContainerStatus, exit_code_of, initial_exit_code, index_of, replica_type_label,
}
use kubedl.Failover.{should_pod_fail_over}

abbrev pub label_is : Option String → String → Bool
label_is none t = false
label_is (some l) t = str_eq l t

-- FilterPodsForReplicaType. The type is a valid value of a label.
unfoldable pub filter_pods_for_replica_type : List Pod → String → List Pod
filter_pods_for_replica_type [] t = []
filter_pods_for_replica_type (p ∷ ps) t =
    let rest = filter_pods_for_replica_type ps t in
    if label_is (lookup replica_type_label p.labels) t then p ∷ rest else rest

abbrev pub Slices : Type 0
Slices = List (List Pod)

-- make([][]*v1.Pod, n) and copy: the first `n` slices, with empty ones where there are fewer.
unfoldable pub resize : {A : Type 0} → ℕ → List (List A) → List (List A)
resize zero xs = []
resize (suc n) [] = [] ∷ resize n []
resize (suc n) (x ∷ xs) = x ∷ resize n xs

-- podSlices[i] = append(podSlices[i], pod), for an index that is in range.
unfoldable pub append_at : {A : Type 0} → ℕ → A → List (List A) → List (List A)
append_at i p [] = []
append_at zero p (x ∷ xs) = (x ++ p ∷ []) ∷ xs
append_at (suc i) p (x ∷ xs) = x ∷ append_at i p xs

-- A pod with no label, with one that is no number, or with a negative one is left out.
abbrev pub place : ℕ → Option ℤ → Pod → Slices → Slices
place replicas none p xs = xs
place replicas (some (negsuc n)) p xs = xs
place replicas (some (pos i)) p xs =
    append_at i p (if leb replicas i then resize (i + 1) xs else xs)

unfoldable pub place_all : ℕ → List Pod → Slices → Slices
place_all replicas [] xs = xs
place_all replicas (p ∷ ps) xs = place_all replicas ps (place replicas (index_of p.labels) p xs)

-- GetPodSlices.
unfoldable pub get_pod_slices : List Pod → ℕ → Slices
get_pod_slices ps replicas = place_all replicas ps (resize replicas [])

-- initializeReplicaStatuses.
unfoldable pub initialize_replica_statuses : String → JobStatus → JobStatus
initialize_replica_statuses rtype s = record s {
  replica_statuses =
      insert rtype (record { active = 0; succeeded = 0; failed = 0; evicted = 0 })
        s.replica_statuses;
}

-- allInitContainersPassed.
unfoldable pub all_init_containers_passed : List ContainerStatus → Bool
all_init_containers_passed [] = true
all_init_containers_passed (c ∷ cs) =
    let rest = all_init_containers_passed cs in
    if not (is_some c.terminated || c.is_running) then false else rest

-- The switch of updateJobReplicaStatuses.
unfoldable pub count_pod : Pod → ReplicaStatus → ReplicaStatus
count_pod p st = elim p.phase [
  | PodPhase.pending ↦
      if not (str_eq p.node_name "") && all_init_containers_passed p.init_container_statuses
      then record st { active = st.active + 1 }
      else st
  | PodPhase.running ↦ record st { active = st.active + 1 }
  | PodPhase.succeeded ↦ record st { succeeded = st.succeeded + 1 }
  | PodPhase.failed ↦ record st { failed = st.failed + 1 }
  | _ ↦ st
]

abbrev pub zero_status : ReplicaStatus
zero_status = record { active = 0; succeeded = 0; failed = 0; evicted = 0 }

abbrev pub or_zero : Option ReplicaStatus → ReplicaStatus
or_zero none = zero_status
or_zero (some st) = st

-- updateJobReplicaStatuses. The status of the type has been initialised, so the pointer is not nil.
unfoldable pub update_job_replica_statuses : String → Pod → JobStatus → JobStatus
update_job_replica_statuses rtype p s = record s {
  replica_statuses =
      insert rtype (count_pod p (or_zero (lookup rtype s.replica_statuses))) s.replica_statuses;
}

-- The calls to the API server.
pub data PodCall : Type 0 where
  create_pod : ℕ → PodCall
  delete_pod : String → PodCall
  annotate_failover : PodCall

-- The state that reconciling the pods of one type changes.
pub record Round : Type 0 where
  pub status : JobStatus
  pub restart : Bool
  pub fail_over : List Pod
  pub failed_contents : List (String × ℕ)
  pub calls : List PodCall

-- What is fixed: the type, its specification, and the name of the default container.
pub record Role : Type 0 where
  pub rtype : String
  pub spec : ReplicaSpec
  pub container : String

abbrev pub fails_over : Role → Pod → Bool
fails_over role p =
    let code = exit_code_of role.container p.container_statuses in
    (phase_eq p.phase PodPhase.failed || not (code == initial_exit_code))
    && should_pod_fail_over role.spec p code

-- reconcileOnePod, with the collection of its result: a pod out of range is deleted and not
-- counted.
unfoldable pub reconcile_one_pod : Role → ℕ → Pod → Round → Round
reconcile_one_pod role index p r =
    let deleted : Round = record r {
      calls = r.calls ++ delete_pod p.name ∷ [];
      failed_contents =
          if phase_eq p.phase PodPhase.failed
          then r.failed_contents ++ (p.name, initial_exit_code) ∷ []
          else r.failed_contents;
    } in
    let counted : Round = record r {
      status = update_job_replica_statuses role.rtype p r.status;
      restart = r.restart || fails_over role p;
      fail_over = if fails_over role p then r.fail_over ++ p ∷ [] else r.fail_over;
      failed_contents =
          if not (fails_over role p) && phase_eq p.phase PodPhase.failed
          then r.failed_contents ++ (p.name, exit_code_of role.container p.container_statuses) ∷ []
          else r.failed_contents;
    } in
    if leb role.spec.replicas index then deleted else counted

-- What the API server answers to the creation of a pod. A timeout counts as created.
pub data Creation : Type 0 where
  created timed_out already_exists creation_failed : Creation

abbrev pub is_created : Creation → Bool
is_created created = true
is_created timed_out = true
is_created already_exists = false
is_created creation_failed = false

-- How the reconciling of the pods ends: normally, or with the error of a creation.
pub data Ending : Type 0 where
  finished_round : Round → Ending
  refused_round : Round → Ending

-- The loop over the slices, from an index on. More than one pod for an index is only warned about.
unfoldable pub reconcile_slices : (ℕ → Creation) → Role → ℕ → Slices → Round → Ending
reconcile_slices answers role index [] r = finished_round r
reconcile_slices answers role index ([] ∷ xs) r =
    let r' : Round = record r { calls = r.calls ++ create_pod index ∷ [] } in
    elim (leb role.spec.replicas index) [
      | true ↦ reconcile_slices answers role (index + 1) xs r
      | false ↦ elim (is_created (answers index)) [
        | true ↦ reconcile_slices answers role (index + 1) xs r'
        | false ↦ refused_round r'
      ]
    ]
reconcile_slices answers role index ((p ∷ []) ∷ xs) r =
    reconcile_slices answers role (index + 1) xs (reconcile_one_pod role index p r)
reconcile_slices answers role index ((p ∷ q ∷ ps) ∷ xs) r =
    reconcile_slices answers role (index + 1) xs r

abbrev pub deletions : List Pod → List PodCall
deletions [] = []
deletions (p ∷ ps) = delete_pod p.name ∷ deletions ps

-- DoFailOver: the pods are deleted, and the job is annotated with the time.
abbrev pub do_fail_over : Round → Round
do_fail_over r =
    if r.restart && ltb 0 (length r.fail_over)
    then record r { calls = r.calls ++ deletions r.fail_over ++ annotate_failover ∷ [] }
    else r

-- Where an AIMaster monitors the errors it decides on the failovers; the calls of
-- reactForAIMasterErrorAnalyzeResult are an argument.
unfoldable pub monitor : Bool → String → List PodCall → Round → Round
monitor monitored rtype reaction r =
    let seen : Round = record r {
      calls = r.calls ++ reaction;
      fail_over = [];
      restart = if str_eq rtype replica_type_ai_master then r.restart else true;
    } in
    if monitored then seen else r

unfoldable pub end_round : Bool → String → List PodCall → Ending → Ending
end_round monitored rtype reaction (refused_round r) = refused_round r
end_round monitored rtype reaction (finished_round r) =
    finished_round (do_fail_over (monitor monitored rtype reaction r))

abbrev pub begin : String → JobStatus → Bool → Round
begin rtype s restart = record {
  status = initialize_replica_statuses rtype s;
  restart = restart;
  fail_over = [];
  failed_contents = [];
  calls = [];
}

-- ReconcilePods. The errors of everything but the creations are collected and then dropped.
unfoldable pub reconcile_pods :
    (ℕ → Creation) → Bool → List PodCall → Role → List Pod → JobStatus → Bool → Ending
reconcile_pods answers monitored reaction role ps s restart =
    end_round monitored role.rtype reaction (
      reconcile_slices answers role 0
        (get_pod_slices (filter_pods_for_replica_type ps (to_lower role.rtype)) role.spec.replicas)
        (begin role.rtype s restart))
