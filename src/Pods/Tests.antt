-- ===== src/Pods/Tests.antt =====
-- Two workers wanted: one runs, one is missing, and a pod with index 3 is left from before.
use kubedl.Prelude.{ℕ, String, ◌≤◌, ◌<◌, false, none, [], ◌∷◌, ◌≡◌, refl, List, length}
use kubedl.Prelude.Text.{to_lower}
use kubedl.Api.{PodPhase, RestartPolicy}
use kubedl.Conditions.Tests.{empty_status}
use kubedl.Kube.{Pod, replica_type_label, replica_index_label}
use kubedl.Pods.{
  Role, Creation, created, get_pod_slices, filter_pods_for_replica_type, reconcile_pods,
}
use kubedl.Pods.Slots.{slot, pods_at, get_pod_slices-pods_at}
use kubedl.Pods.Tally.{Counts, OnFinish, counted, reconcile_pods-Counts}
use kubedl.Pods.Creates.{FillsGaps, reconcile_pods-FillsGaps}

abbrev worker : String → PodPhase → Pod
worker index phase = record {
  name = index;
  uid = index;
  labels = (replica_type_label, "worker") ∷ (replica_index_label, index) ∷ [];
  finalizers = [];
  phase = phase;
  reason = "";
  node_name = "node";
  deletion_timestamp = none;
  start_time = none;
  container_statuses = [];
  init_container_statuses = [];
}

abbrev workers : List Pod
workers = worker "1" PodPhase.running ∷ worker "3" PodPhase.failed ∷ []

abbrev role : Role
role = record {
  rtype = "Worker";
  spec = record { replicas = 2; spot = none; restart_policy = RestartPolicy.never; depend_on = [] };
  container = "tensorflow";
}

abbrev accepts : ℕ → Creation
accepts i = created

get_pod_slices-pods_at_example :
    (2 ≤ length (get_pod_slices workers 2))
    × ((i : ℕ) → i < 2 → slot i (get_pod_slices workers 2) ≡ pods_at i workers)
get_pod_slices-pods_at_example = get_pod_slices-pods_at workers 2

reconcile_pods-Counts_example :
    OnFinish
      (Counts "Worker" empty_status
        (counted 2 0 (get_pod_slices (filter_pods_for_replica_type workers (to_lower "Worker")) 2)))
      (reconcile_pods accepts false [] role workers empty_status false)
reconcile_pods-Counts_example =
    reconcile_pods-Counts accepts false [] role workers empty_status false

reconcile_pods-FillsGaps_example :
    FillsGaps role workers (reconcile_pods accepts false [] role workers empty_status false)
reconcile_pods-FillsGaps_example =
    reconcile_pods-FillsGaps accepts role workers empty_status false (λ i. refl)
