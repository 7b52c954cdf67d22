-- ===== src/Defaults/Tests.antt =====
-- A TFJob with a worker and a parameter server.
use kubedl.Prelude.{true, Option, none, some, [], ◌∷◌, ◌≡◌, refl, is_some}
use kubedl.Prelude.Map.{lookup, has_key}
use kubedl.Prelude.Text.{to_lower}
use kubedl.Defaults.{
  Replica, set_type_meta, index_of_container, update_at, has_port, add_port, set_port,
  enable_fallback_to_logs, equal_fold, find_variant, set_type_name, modify, set_upstream, each,
}
use kubedl.Defaults.Tensorflow.{
  Job, set_job_port, set_type_names, set_dag_condition, set_replicas, set_replica, set_defaults,
}
use kubedl.Defaults.Complete.{all_complete}
use kubedl.Defaults.Complete.Again.{IsCanonical, set_defaults_twice}
use kubedl.Defaults.Complete.Fails.{all_filled, set_defaults-all_filled}

abbrev replica : Replica
replica = record {
  replicas = none;
  restart_policy = none;
  depend_on = [];
  containers =
      record { name = "sidecar"; ports = []; env = []; termination_message_policy = none }
      ∷ record { name = "tensorflow"; ports = []; env = []; termination_message_policy = none }
      ∷ [];
}

abbrev pub job : Job
job = record {
  meta = record { kind = ""; api_version = "" };
  clean_pod_policy = none;
  success_policy = none;
  specs = ("Worker", replica) ∷ ("PS", replica) ∷ [];
}

pub canonical : IsCanonical job.specs
unfolding find_variant equal_fold to_lower
canonical = (refl, (refl, (refl, (refl, refl))))

abbrev pub from_some : Option Job → Job
from_some none = job
from_some (some j) = j

pub ends : set_defaults true job ≡ some (from_some (set_defaults true job))
unfolding set_defaults set_type_meta each set_replica set_replicas set_job_port set_port
    index_of_container update_at add_port has_port enable_fallback_to_logs set_dag_condition
    set_upstream modify has_key lookup set_type_names set_type_name find_variant equal_fold to_lower
ends = refl

set_defaults_twice_example :
    (set_defaults true (from_some (set_defaults true job))
      ≡ some (from_some (set_defaults true job)))
    × (all_complete (from_some (set_defaults true job)).specs ≡ true)
set_defaults_twice_example =
    set_defaults_twice true job (from_some (set_defaults true job)) canonical ends

set_defaults-all_filled_example : is_some (set_defaults true job) ≡ all_filled job.specs
set_defaults-all_filled_example = set_defaults-all_filled true job canonical
