-- ===== src/Jobs/Tests.antt =====
-- A job with a time to live that is past its backoff limit, and one that is past its deadline.
use kubedl.Prelude.{String, Bool, true, none, some, List, [], ◌∷◌, ◌≡◌, refl}
use kubedl.Api.{JobStatus, PodPhase, running_pods}
use kubedl.Conditions.Tests.{empty_status, empty_status-IsWellFormed}
use kubedl.Kube.{Pod}
use kubedl.Jobs.{RunPolicy, past_backoff, past_deadline, JobCall, past_active_deadline, to_int64}
use kubedl.Jobs.Terminate.{Answers, stopped, terminate}
use kubedl.Jobs.Ends.{IsFinal, OnWrite, terminate-IsFinal, terminate_backoff_ttl}

abbrev accepts : String → Bool
accepts n = true

abbrev answers : Answers
answers = record {
  pods = accepts;
  services = accepts;
  job = true;
  gang = true;
  model = some none;
  cache = true;
}

abbrev policy : RunPolicy
policy = record {
  clean_pod_policy = running_pods;
  ttl_seconds_after_finished = some 60;
  active_deadline_seconds = some 10;
  backoff_limit = some 3;
}

abbrev worker : Pod
worker = record {
  name = "mnist-worker-0";
  uid = "1";
  labels = [];
  finalizers = [];
  phase = PodPhase.running;
  reason = "";
  node_name = "node";
  deletion_timestamp = none;
  start_time = none;
  container_statuses = [];
  init_container_statuses = [];
}

abbrev started : JobStatus
started = record empty_status { start_time = some 0 }

terminate-IsFinal_example :
    OnWrite
      (IsFinal past_deadline)
      (terminate 9 9 answers "mnist" policy past_deadline (worker ∷ []) empty_status)
terminate-IsFinal_example =
    terminate-IsFinal 9 9 answers "mnist" policy past_deadline (worker ∷ []) empty_status
      empty_status-IsWellFormed

terminate_backoff_ttl_example :
    (calls : List JobCall) × (terminate 9 9 answers "mnist" policy past_backoff
        (worker ∷ [])
        empty_status
      ≡ stopped calls)
terminate_backoff_ttl_example =
    terminate_backoff_ttl 9 9 answers "mnist" policy (worker ∷ []) empty_status 60 refl refl

late : past_active_deadline 10000000000 policy started ≡ true
unfolding past_active_deadline to_int64
late = refl
