-- ===== src/Dag.antt =====
-- pkg/job_controller/dag_sched.go: a replica type waits for the pods of its upstream types.
pub mod Readiness
pub mod Progress
mod Tests
use kubedl.Prelude.{
  ℕ, String, Bool, true, false, Option, none, some, List, [], ◌∷◌, ◌++◌, map, str_eq, ltb, length,
  if◌then◌else◌,
}
use kubedl.Prelude.Int.{ℤ, pos, negsuc, sub_ℤ, is_negative}
use kubedl.Prelude.Map.{lookup, insert}
use kubedl.Prelude.Text.{to_lower}
use kubedl.Api.{PodPhase, DagCondition, ReplicaSpec}
use kubedl.Kube.{Pod, Labels, replica_type_label}
use kubedl.Rollup.{Specs}

-- phaseCodes. A phase that the map does not hold reads as 0.
unfoldable pub phase_code : PodPhase → ℤ
phase_code PodPhase.pending = pos 0
phase_code PodPhase.running = pos 1
phase_code PodPhase.succeeded = pos 2
phase_code PodPhase.failed = pos 2
phase_code PodPhase.unknown = negsuc 0
phase_code PodPhase.unset = pos 0

unfoldable pub phase_comparator : PodPhase → PodPhase → ℤ
phase_comparator p q = sub_ℤ (phase_code p) (phase_code q)

-- A missing label reads as the empty text.
abbrev pub label_or_empty : Option String → String
label_or_empty none = ""
label_or_empty (some l) = l

abbrev pub replica_type_of : Pod → String
replica_type_of p = label_or_empty (lookup replica_type_label p.labels)

-- The collector of a label: the last replica type whose lower case it is.
unfoldable pub collector : List String → String → Option String
collector [] label = none
collector (t ∷ ts) label = elim (collector ts label) [
  | some u ↦ some u
  | none ↦ if str_eq (to_lower t) label then some t else none
]

abbrev pub PodMap : Type 0
PodMap = List (String × List Pod)

-- A missing key reads as the empty slice.
abbrev pub or_empty : Option (List Pod) → List Pod
or_empty none = []
or_empty (some ps) = ps

abbrev pub add_pod : Option String → Pod → PodMap → PodMap
add_pod none p m = m
add_pod (some t) p m = insert t (or_empty (lookup t m) ++ p ∷ []) m

-- The loop over the pods.
unfoldable pub collect_pods : List String → List Pod → PodMap → PodMap
collect_pods ts [] m = m
collect_pods ts (p ∷ ps) m = collect_pods ts ps (add_pod (collector ts (replica_type_of p)) p m)

unfoldable pub sort_pods_by_replica_type : List Pod → List String → PodMap
sort_pods_by_replica_type ps ts = collect_pods ts ps []

abbrev pub replica_types : Specs → List String
replica_types specs = map (λ (e : String × ReplicaSpec). e.0) specs

-- The loop over the pods of the upstream type.
unfoldable pub all_reached : List Pod → PodPhase → Bool
all_reached [] phase = true
all_reached (p ∷ ps) phase =
    let rest = all_reached ps phase in
    if is_negative (phase_comparator p.phase phase) then false else rest

-- An upstream type that is not in the specifications counts as ready.
unfoldable pub upstream_replicas_ready : PodMap → Specs → DagCondition → Bool
upstream_replicas_ready m specs c = elim (lookup c.upstream specs) [
  | none ↦ true
  | some spec ↦
      let ps = or_empty (lookup c.upstream m) in
      if ltb (length ps) spec.replicas then false else all_reached ps c.on_phase
]

-- The loop over the conditions.
unfoldable pub all_ready : PodMap → Specs → List DagCondition → Bool
all_ready m specs [] = true
all_ready m specs (c ∷ cs) =
    let rest = all_ready m specs cs in if upstream_replicas_ready m specs c then rest else false

unfoldable pub dag_conditions_ready : Specs → List Pod → List DagCondition → Bool
dag_conditions_ready specs ps [] = true
dag_conditions_ready specs ps (c ∷ cs) =
    all_ready (sort_pods_by_replica_type ps (replica_types specs)) specs (c ∷ cs)
