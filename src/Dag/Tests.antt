-- ===== src/Dag/Tests.antt =====
-- A worker that waits for its parameter server to run.
use kubedl.Prelude.{true, none, [], ◌∷◌, ◌≡◌, refl, ◌↔◌, List, arith}
use mathlib.Core.List.{Memᴰ}
use kubedl.Prelude.Map.{lookup, insert}
use kubedl.Prelude.Text.{to_lower}
use kubedl.Api.{PodPhase, DagCondition, never}
use kubedl.Kube.{Pod, replica_type_label}
use kubedl.Rollup.{Specs}
use kubedl.Dag.{
  phase_code, phase_comparator, collector, collect_pods, sort_pods_by_replica_type, all_reached,
  upstream_replicas_ready, all_ready, dag_conditions_ready,
}
use kubedl.Dag.Readiness.{stage, IsReady, dag_conditions_ready_iff}
use kubedl.Dag.Progress.{Forward, none_left, moves, dag_conditions_ready-Forward}

program : Unit {0}
unfolding phase_code phase_comparator collector collect_pods sort_pods_by_replica_type all_reached
    upstream_replicas_ready all_ready dag_conditions_ready lookup insert to_lower stage
program = tt

abbrev server : PodPhase → Pod
server phase = record {
  name = "mnist-ps-0";
  uid = "1";
  labels = (replica_type_label, "ps") ∷ [];
  finalizers = [];
  phase = phase;
  reason = "";
  node_name = "node";
  deletion_timestamp = none;
  start_time = none;
  container_statuses = [];
  init_container_statuses = [];
}

abbrev specs : Specs
specs = ("PS", record { replicas = 1; spot = none; restart_policy = never; depend_on = [] }) ∷ []

abbrev conditions : List DagCondition
conditions = record { upstream = "PS"; on_phase = PodPhase.running } ∷ []

runs : dag_conditions_ready specs (server PodPhase.running ∷ []) conditions ≡ true
unfolding program
runs = refl

goes_on : Forward (server PodPhase.running ∷ []) (server PodPhase.succeeded ∷ [])
unfolding program
goes_on = moves refl (omega arith) none_left

dag_conditions_ready_iff_example :
    (dag_conditions_ready specs (server PodPhase.running ∷ []) conditions ≡ true)
    ↔ ((c : DagCondition) → Memᴰ c conditions → IsReady specs (server PodPhase.running ∷ []) c)
dag_conditions_ready_iff_example =
    dag_conditions_ready_iff specs (server PodPhase.running ∷ []) conditions

dag_conditions_ready-Forward_example :
    dag_conditions_ready specs (server PodPhase.succeeded ∷ []) conditions ≡ true
dag_conditions_ready-Forward_example =
    dag_conditions_ready-Forward specs conditions (server PodPhase.running ∷ [])
      (server PodPhase.succeeded ∷ []) goes_on runs
