-- ===== src/Elastic/Tests.antt =====
-- A job that is asked to drain a pod, and the scaling of a master and a worker.
use kubedl.Prelude.{
  String, true, false, some, List, [], ◌∷◌, ◌≡◌, ◌≢◌, refl, ap, arith, length, ltb, str_eq, inl,
}
use kubedl.Failover.{found, request_completed, restart_with, restart_pod}
use kubedl.Elastic.{in_progress, absent, stored, Server, Outcome, wound_up}
use kubedl.Elastic.Phase.{World, after, request}
use kubedl.Prelude.Format.{digit, decimal_on, decimal}
use kubedl.Elastic.Scale.{
  ElasticPod, ElasticService, filter_master_service, refresh_stale_service, ScaleJob, is_stale_pod,
  filter_stale_pods, of_type, restart_pod_in_kruise_protocol, restart_stale_pod, restart_masters,
  restart_workers, finish_scale, scale_stale, scale,
}
use kubedl.Elastic.Scale.Finishes.{IsRefreshed, scale-IsRefreshed, scale_finishes}
use mathlib.Core.List.{Memᴰ}

abbrev api : Server
api = record { deletes = λ _. true; patches = true; updates = true }

abbrev fresh : World
fresh = record {
  job = record { generation = 1; requested = absent; completed = absent; ready_to_start = false };
  answered = false;
}

abbrev asked : Outcome
asked = record {
  is_completed = false;
  has_error = false;
  job = record fresh.job { requested = stored (request 1 in_progress) };
}

abbrev waiting : World
waiting = after fresh asked

abbrev answered : World
answered = record {
  job = record waiting.job { completed = stored (request 1 in_progress) };
  answered = true;
}

abbrev wound : Outcome
wound = record {
  is_completed = true;
  has_error = false;
  job = wound_up (request 1 in_progress) answered.job;
}

abbrev pod : String → String → ElasticPod
pod name type = record {
  name = name;
  replica_type = type;
  index = "0";
  generation = "";
  is_active = true;
  world_size = some "2";
  request = found (record { generation = "2"; phase = request_completed });
  accepts = record { creates = true; deletes_request = true; deletes_pod = true };
  patches = true;
}

abbrev pods : List ElasticPod
pods = pod "worker-0" "worker" ∷ pod "master-0" "master" ∷ []

abbrev job : ScaleJob
job = record {
  generation = 2;
  ready_to_start = true;
  immediately_start = false;
  is_inflight = false;
}

abbrev services : List ElasticService
services =
    record {
      replica_type = "master";
      index = "0";
      generation = "1";
      selected = "1";
      patches = true;
    }
    ∷ []

scales : ltb 0 (length (scale services true job 2 pods).touched) ≡ true
unfolding scale filter_master_service refresh_stale_service scale_stale finish_scale restart_masters
    restart_workers restart_stale_pod restart_pod_in_kruise_protocol of_type filter_stale_pods
    is_stale_pod decimal decimal_on digit restart_with restart_pod
scales = refl

finishes : (scale services true job 2 pods).is_finished ≡ true
unfolding scale filter_master_service refresh_stale_service scale_stale finish_scale restart_masters
    restart_workers restart_stale_pod restart_pod_in_kruise_protocol of_type filter_stale_pods
    is_stale_pod decimal decimal_on digit restart_with restart_pod
finishes = refl

scale-IsRefreshed_example : IsRefreshed job 2 (pod "master-0" "master")
scale-IsRefreshed_example =
    scale-IsRefreshed services true job 2 pods (pod "master-0" "master") scales
      (Memᴰ.tail (Memᴰ.head refl)) (inl refl) refl

not_ai_master : ◌≢◌ {A = String} "worker" "aimaster"
not_ai_master e = absurd (ground (arith, ap (λ t. str_eq t "worker") e))

scale_finishes_example : IsRefreshed job 2 (pod "worker-0" "worker")
scale_finishes_example =
    scale_finishes services true job 2 pods (pod "worker-0" "worker") finishes (Memᴰ.head refl)
      (inl refl) not_ai_master
