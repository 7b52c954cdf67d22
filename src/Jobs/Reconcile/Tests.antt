-- ===== src/Jobs/Reconcile/Tests.antt =====
-- A TFJob with a chief that has succeeded and a worker.
use kubedl.Prelude.{
  String, true, false, none, some, [], ◌∷◌, ◌≡◌, refl, sym, elem, Distinct, empty, extend,
}
use mathlib.Core.Path.{subst}
use mathlib.Core.List.{Memᴰ}
use kubedl.Prelude.Map.{lookup}
use kubedl.Api.{PodPhase, RestartPolicy, ReplicaSpec, type_eq, status_eq}
use kubedl.Conditions.{is_succeeded, any_true, has_condition}
use kubedl.Conditions.Tests.{empty_status}
use kubedl.Kube.{Pod, replica_type_label, replica_index_label}
use kubedl.Pods.{created}
use kubedl.Rollup.Tensorflow.{update_general_job_status}
use kubedl.Jobs.Reconcile.{Setting, waits_for_upstream, reconcile_types, reconcile_job}
use kubedl.Jobs.Reconcile.Counted.{Reconciles, OnPass, reconcile_types-Reconciles}
use kubedl.Jobs.Reconcile.Tensorflow.{IsComplete, PodsSucceed, OnRollup, reconcile_job-PodsSucceed}

program : Unit {0}
unfolding lookup elem any_true has_condition type_eq status_eq
program = tt

abbrev pod : String → String → PodPhase → Pod
pod rtype index phase = record {
  name = rtype;
  uid = rtype;
  labels = (replica_type_label, rtype) ∷ (replica_index_label, index) ∷ [];
  finalizers = [];
  phase = phase;
  reason = "";
  node_name = "node";
  deletion_timestamp = none;
  start_time = none;
  container_statuses = [];
  init_container_statuses = [];
}

abbrev spec : ReplicaSpec
spec = record { replicas = 1; spot = none; restart_policy = RestartPolicy.never; depend_on = [] }

abbrev setting : Setting
setting = record {
  orders = "Chief" ∷ "Worker" ∷ [];
  specs = ("Chief", spec) ∷ ("Worker", spec) ∷ [];
  pods = pod "chief" "0" PodPhase.succeeded ∷ pod "worker" "0" PodPhase.running ∷ [];
  container = "tensorflow";
  ai_master_ready = false;
  dag_scheduling = true;
  creations = λ t i. created;
  monitored = false;
  reaction = λ t. [];
  services = λ t. true;
}

orders-Distinct : Distinct setting.orders
unfolding program
orders-Distinct = extend refl (extend refl empty)

-- What one entry of the specifications has to satisfy.
abbrev Fits : String × ReplicaSpec → Type 0
Fits e =
    (lookup e.0 setting.specs ≡ some e.1)
    × ((elem e.0 setting.orders ≡ true) × (waits_for_upstream setting e.1 ≡ false))

one_name : (t : String) (s : ReplicaSpec) → Memᴰ (t, s) setting.specs → Fits (t, s)
unfolding program
one_name t s (Memᴰ.head e) = subst Fits (sym e) (refl, (refl, refl))
one_name t s (Memᴰ.tail (Memᴰ.head e)) = subst Fits (sym e) (refl, (refl, refl))
one_name t s (Memᴰ.tail (Memᴰ.tail m)) = elim m [ ]

setting-IsComplete : IsComplete setting
setting-IsComplete = record {
  distinct = orders-Distinct;
  one = λ t s m. (one_name t s m).0;
  ordered = λ t s m. (one_name t s m).1.0;
  ready = λ t s m. (one_name t s m).1.1;
}

reconcile_types-Reconciles_example :
    OnPass
      (Reconciles setting setting.orders empty_status)
      (reconcile_types setting setting.orders empty_status false [])
reconcile_types-Reconciles_example =
    reconcile_types-Reconciles setting empty_status false orders-Distinct

open_status : is_succeeded empty_status ≡ false
unfolding program
open_status = refl

reconcile_job-PodsSucceed_example :
    OnRollup
      (λ r. is_succeeded r.status ≡ true → PodsSucceed setting [])
      (reconcile_job setting
        (λ restart s. update_general_job_status 7 "mnist" none setting.specs restart (some []) s)
        empty_status)
reconcile_job-PodsSucceed_example =
    reconcile_job-PodsSucceed setting 7 "mnist" none [] setting-IsComplete empty_status open_status
