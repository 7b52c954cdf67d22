-- ===== src/Elastic/Scale.antt =====
-- controllers/pytorch/elastic_scale.go: scaling an elastic PyTorchJob, which brings its stale pods to
-- the generation of the job, the master before the workers; and the tests on stale pods of
-- pkg/util/k8sutil/k8sutil.go.
pub mod Order
pub mod Finishes
use kubedl.Prelude.{
  ℕ, zero, suc, ◌+◌, String, Bool, true, false, not, ◌&&◌, ◌||◌, Option, none, some, List, [], ◌∷◌,
  ◌++◌, ◌==◌, str_eq, length, if◌then◌else◌,
}
use kubedl.Prelude.Int.{ℤ, pos, ltb_ℤ, sub_ℕ, is_zero}
use kubedl.Prelude.Atoi.{atoi}
use kubedl.Prelude.Map.{lookup}
use kubedl.Prelude.Format.{decimal}
use kubedl.Failover.{Answer, Server, restart_pod, Restart}

-- A pod as far as scaling reads it: `request` is what the API server says of its
-- ContainerRecreateRequest, and `accepts` which of the calls on it succeed.
pub record ElasticPod : Type 0 where
  pub name : String
  pub replica_type : String
  pub index : String
  pub generation : String
  pub is_active : Bool
  pub world_size : Option String
  pub request : Answer
  pub accepts : Server
  pub patches : Bool

-- IsStalePod.
unfoldable pub is_stale_pod : ℕ → ElasticPod → Bool
is_stale_pod generation p =
    if str_eq p.generation ""
    then true
    else elim (atoi p.generation) [ none ↦ false | some current ↦ ltb_ℤ current (pos generation) ]

-- FilterStalePodsByReplicaType, without the AIMaster. The pods of a type keep their order.
unfoldable pub filter_stale_pods : ℕ → List ElasticPod → List ElasticPod
filter_stale_pods generation [] = []
filter_stale_pods generation (p ∷ ps) =
    let rest = filter_stale_pods generation ps in
    if is_stale_pod generation p && not (str_eq p.replica_type "aimaster") then p ∷ rest else rest

unfoldable pub of_type : String → List ElasticPod → List ElasticPod
of_type t [] = []
of_type t (p ∷ ps) = let rest = of_type t ps in if str_eq p.replica_type t then p ∷ rest else rest

-- The job as far as scaling reads it.
pub record ScaleJob : Type 0 where
  pub generation : ℕ
  pub ready_to_start : Bool
  pub immediately_start : Bool
  pub is_inflight : Bool

pub record Refresh : Type 0 where
  pub completed : Bool
  pub error : Bool

abbrev pub of_restart : Restart → Refresh
of_restart r = record { completed = r.completed; error = r.error }

abbrev pub refreshed : Bool → Bool → Refresh
refreshed completed error = record { completed = completed; error = error }

abbrev pub is_size : Option String → String → Bool
is_size none size = false
is_size (some s) size = str_eq s size

-- restartPodInKruiseProtocol. Past the world size it is what RestartPod does.
unfoldable pub restart_pod_in_kruise_protocol : String → String → ElasticPod → Refresh
restart_pod_in_kruise_protocol size generation p =
    if not (is_size p.world_size size)
    then refreshed false (not p.patches)
    else of_restart (restart_pod p.accepts generation p.request)

-- restartStalePod.
unfoldable pub restart_stale_pod : ScaleJob → ℕ → ElasticPod → Refresh
restart_stale_pod j world_size p =
    let generation = decimal j.generation in
    let restart = restart_pod_in_kruise_protocol (decimal world_size) generation p in
    if j.immediately_start && not p.is_active
    then refreshed p.accepts.deletes_pod (not p.accepts.deletes_pod)
    else if str_eq p.generation generation
    then refreshed true false
    else if not restart.completed
    then restart
    else refreshed p.patches (not p.patches)

-- The loop over the masters: whether all have completed, up to the first error.
unfoldable pub restart_masters : ScaleJob → ℕ → List ElasticPod → Refresh
restart_masters j size [] = refreshed true false
restart_masters j size (p ∷ ps) =
    let r = restart_stale_pod j size p in
    let rest = restart_masters j size ps in
    if r.error then refreshed false true else refreshed (r.completed && rest.completed) rest.error

-- The loop over the workers, each in a goroutine: how many have completed.
unfoldable pub restart_workers : ScaleJob → ℕ → List ElasticPod → ℕ
restart_workers j size [] = 0
restart_workers j size (p ∷ ps) =
    let r = restart_stale_pod j size p in
    (if not r.error && r.completed then 1 else 0) + restart_workers j size ps

-- What scaling ends with. `touched` are the workers that it has tried to refresh.
pub record Scaled : Type 0 where
  pub is_finished : Bool
  pub has_error : Bool
  pub touched : List ElasticPod

abbrev pub scaled : Bool → Bool → List ElasticPod → Scaled
scaled finished error touched = record {
  is_finished = finished;
  has_error = error;
  touched = touched;
}

-- The last step, with `total` pods that are still stale.
unfoldable pub finish_scale : Bool → List ElasticPod → ℤ → List ElasticPod → Scaled
finish_scale patches stale total workers =
    if length stale == 0 || is_zero total
    then (if patches then scaled true false workers else scaled false true workers)
    else scaled false false workers

-- Once the state is inflight: the stale masters, then the stale workers. The count is one variable
-- that all goroutines decrement; here no decrement is lost.
unfoldable pub scale_stale : Bool → ScaleJob → ℕ → List ElasticPod → Scaled
scale_stale patches j size stale =
    let masters = of_type "master" stale in
    let workers = of_type "worker" stale in
    let r = restart_masters j size masters in
    if r.error
    then scaled false true []
    else if not r.completed
    then scaled false false []
    else finish_scale patches stale
        (sub_ℕ (length stale) (length masters + restart_workers j size workers)) workers

-- A service with its labels and the generation in its selector; `patches` is whether the API server
-- accepts its patch.
pub record ElasticService : Type 0 where
  pub replica_type : String
  pub index : String
  pub generation : String
  pub selected : String
  pub patches : Bool

-- filterMasterService.
unfoldable pub filter_master_service : List ElasticService → Option ElasticService
filter_master_service [] = none
filter_master_service (s ∷ ss) =
    let rest = filter_master_service ss in if str_eq s.replica_type "master" then some s else rest

-- refreshStaleService: whether it succeeds.
unfoldable pub refresh_stale_service : ElasticService → String → Bool
refresh_stale_service s generation =
    if str_eq s.generation generation && str_eq s.selected generation then true else s.patches

abbrev pub refresh_master : ℕ → Option ElasticService → Bool
refresh_master generation none = true
refresh_master generation (some s) = refresh_stale_service s (decimal generation)

-- scale: `patches` is whether the API server accepts the patches of the job.
unfoldable pub scale : List ElasticService → Bool → ScaleJob → ℕ → List ElasticPod → Scaled
scale services patches j size active =
    if not (refresh_master j.generation (filter_master_service services))
    then scaled false true []
    else if not j.ready_to_start && not j.immediately_start
    then scaled false false []
    else if not j.is_inflight && not patches
    then scaled false true []
    else scale_stale patches j size (filter_stale_pods j.generation active)

-- ScaleOut.
unfoldable pub scale_out : List ElasticService → Bool → ScaleJob → ℕ → List ElasticPod → Bool
scale_out services patches j size active = (scale services patches j size active).has_error

-- isIndexOutOfRange, on the labels for the type and the index, "" where there is none.
unfoldable pub is_index_out_of_range : String → String → ℕ → Bool
is_index_out_of_range rtype index replicas =
    if str_eq rtype "" || str_eq index ""
    then false
    else elim (atoi index) [ none ↦ false | some i ↦ not (ltb_ℤ i (pos replicas)) ]

-- The replicas by the type in lower case; a type that is missing counts none.
abbrev pub count_of : List (String × ℕ) → String → ℕ
count_of counts rtype = elim (lookup rtype counts) [ none ↦ 0 | some n ↦ n ]

unfoldable pub in_range_pods : List (String × ℕ) → List ElasticPod → List ElasticPod
in_range_pods counts [] = []
in_range_pods counts (p ∷ ps) =
    let rest = in_range_pods counts ps in
    if not (is_index_out_of_range p.replica_type p.index (count_of counts p.replica_type))
    then p ∷ rest
    else rest

unfoldable pub in_range_services : List (String × ℕ) → List ElasticService → List ElasticService
in_range_services counts [] = []
in_range_services counts (s ∷ ss) =
    let rest = in_range_services counts ss in
    if not (is_index_out_of_range s.replica_type s.index (count_of counts s.replica_type))
    then s ∷ rest
    else rest

-- ScaleIn.
unfoldable pub scale_in :
    List (String × ℕ) → List ElasticService → Bool → ScaleJob → ℕ → List ElasticPod → Bool
scale_in counts services patches j size active =
    (scale (in_range_services counts services) patches j size
      (in_range_pods counts active)).has_error
