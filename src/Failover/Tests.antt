-- ===== src/Failover/Tests.antt =====
-- A pod that was killed, and the restart of its containers.
use kubedl.Prelude.{true, false, none, some, [], ◌∷◌, ◌≡◌, ◌↔◌}
use kubedl.Api.{PodPhase, RestartPolicy, ReplicaSpec}
use kubedl.Kube.{Pod}
use kubedl.Failover.{restart_pod, Server, Answer, found, request_succeeded}
use kubedl.Failover.InPlace.{Completes, restart_pod-Completes}

abbrev spec : ReplicaSpec
spec = record {
  replicas = 1;
  spot = none;
  restart_policy = RestartPolicy.exit_code;
  depend_on = [];
}

abbrev victim : Pod
victim = record {
  name = "mnist-worker-0";
  uid = "1";
  labels = [];
  finalizers = [];
  phase = PodPhase.failed;
  reason = "";
  node_name = "node";
  deletion_timestamp = none;
  start_time = none;
  container_statuses =
      record { name = "tensorflow"; is_running = false; terminated = some 137; restart_count = 0 }
      ∷ [];
  init_container_statuses = [];
}

abbrev server : Server
server = record { creates = true; deletes_request = true; deletes_pod = false }

abbrev answer : Answer
answer = found (record { generation = "3"; phase = request_succeeded })

restart_pod-Completes_example :
    ((restart_pod server "3" answer).completed ≡ true) ↔ Completes server "3" answer
restart_pod-Completes_example = restart_pod-Completes server "3" answer
