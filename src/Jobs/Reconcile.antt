-- ===== src/Jobs/Reconcile.antt =====
-- The branch of ReconcileJobs (pkg/job_controller/job.go) for a job that runs: the pods and services
-- of each replica type, and then the roll-up of the job kind.
pub mod Counted
pub mod Tensorflow
mod Tests
use kubedl.Prelude.{
  ℕ, String, Bool, true, false, not, ◌&&◌, Option, none, some, List, [], ◌∷◌, ◌++◌, str_eq, ltb,
  length,
}
use kubedl.Prelude.Map.{lookup}
use kubedl.Api.{JobStatus, ReplicaSpec, replica_type_ai_master}
use kubedl.Kube.{Pod}
use kubedl.Rollup.{Specs, Flow, contains_replica_type}
use kubedl.Dag.{dag_conditions_ready}
use kubedl.Pods.{Creation, PodCall, Role, finished_round, refused_round, reconcile_pods}

-- What is fixed during the loop over the replica types: the order in which the job kind reconciles
-- them, the specifications and the pods of the job, and the answers of the other parts. `services`
-- says whether the services of a type are reconciled without an error, where it has any.
pub record Setting : Type 0 where
  pub orders : List String
  pub specs : Specs
  pub pods : List Pod
  pub container : String
  pub ai_master_ready : Bool
  pub dag_scheduling : Bool
  pub creations : String → ℕ → Creation
  pub monitored : Bool
  pub reaction : String → List PodCall
  pub services : String → Bool

-- How the loop ends: through all types, frozen until the AIMaster is ready, or with an error.
pub data Pass : Type 0 where
  passed : JobStatus → Bool → List PodCall → Pass
  frozen failed_pass : Pass

abbrev pub role_of : Setting → String → ReplicaSpec → Role
role_of c t spec = record { rtype = t; spec = spec; container = c.container }

abbrev pub waits_for_ai_master : Setting → String → Bool
waits_for_ai_master c t =
    contains_replica_type c.specs (replica_type_ai_master ∷ [])
    && not (str_eq t replica_type_ai_master)
    && not c.ai_master_ready

abbrev pub waits_for_upstream : Setting → ReplicaSpec → Bool
waits_for_upstream c spec =
    c.dag_scheduling
    && ltb 0 (length spec.depend_on)
    && not (dag_conditions_ready c.specs c.pods spec.depend_on)

-- The loop over the replica types.
unfoldable pub reconcile_types : Setting → List String → JobStatus → Bool → List PodCall → Pass
reconcile_types c [] s restart calls = passed s restart calls
reconcile_types c (t ∷ ts) s restart calls = elim (lookup t c.specs) [
  | none ↦ reconcile_types c ts s restart calls
  | some spec ↦ elim (waits_for_ai_master c t) [
    | true ↦ frozen
    | false ↦ elim (waits_for_upstream c spec) [
      | true ↦ reconcile_types c ts s restart calls
      | false ↦
          elim (reconcile_pods (c.creations t) c.monitored (c.reaction t) (role_of c t spec) c.pods
            s restart) [
              | refused_round r ↦ failed_pass
              | finished_round r ↦ elim (c.services t) [
                | true ↦ reconcile_types c ts r.status r.restart (calls ++ r.calls)
                | false ↦ failed_pass
              ]
            ]
    ]
  ]
]

-- What the branch comes to: the status that the roll-up leaves, or nothing.
pub data Reconciled : Type 0 where
  rolled_up : Flow → Reconciled
  not_rolled_up : Reconciled

-- The branch, with the roll-up of the job kind, which takes the restart flag and the status.
unfoldable pub reconcile_job : Setting → (Bool → JobStatus → Flow) → JobStatus → Reconciled
reconcile_job c update s = elim (reconcile_types c c.orders s false []) [
  | passed s' restart calls ↦ rolled_up (update restart s')
  | frozen ↦ not_rolled_up
  | failed_pass ↦ not_rolled_up
]
