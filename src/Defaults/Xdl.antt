-- ===== src/Defaults/Xdl.antt =====
-- apis/training/v1alpha1/xdljob_defaults.go.
use kubedl.Prelude.{ℕ, Option, none, some, List}
use kubedl.Api.{RestartPolicy, CleanPodPolicy}
use kubedl.Defaults.{
  Container, Replica, Specs, TypeMeta, or_default, set_type_meta, group_version, set_port,
  enable_fallback_to_logs, set_type_name, each, on_containers,
}

pub record Job : Type 0 where
  pub meta : TypeMeta
  pub clean_pod_policy : Option CleanPodPolicy
  pub min_finish_worker_num : Option ℕ
  pub min_finish_worker_percentage : Option ℕ
  pub backoff_limit : Option ℕ
  pub specs : Specs

abbrev pub set_percentage : Option ℕ → Option ℕ → Option ℕ
set_percentage none p = or_default 90 p
set_percentage (some n) p = p

-- setDefaults_XDLJobSpec.
unfoldable pub set_spec : Job → Job
set_spec j = record j {
  clean_pod_policy = or_default CleanPodPolicy.running_pods j.clean_pod_policy;
  min_finish_worker_percentage =
      set_percentage j.min_finish_worker_num j.min_finish_worker_percentage;
  backoff_limit = or_default 20 j.backoff_limit;
}

-- setDefaults_XDLJobPort.
unfoldable pub set_job_port : List Container → Option (List Container)
set_job_port = set_port "xdl" "xdljob-port" 2222

-- setTypeNames_XDLJob.
unfoldable pub set_type_names : Specs → Specs
set_type_names m =
    set_type_name "ExtendRole"
      (set_type_name "Scheduler" (set_type_name "PS" (set_type_name "Worker" m)))

-- setDefaults_XDLJobReplicas.
unfoldable pub set_replicas : Replica → Replica
set_replicas r = record r {
  replicas = or_default 1 r.replicas;
  restart_policy = or_default RestartPolicy.never r.restart_policy;
}

-- The body of the loop over the replica specifications.
unfoldable pub set_replica : Replica → Option Replica
set_replica r = on_containers (set_replicas r) (set_job_port (enable_fallback_to_logs r.containers))

abbrev pub with_specs : Job → Option Specs → Option Job
with_specs j none = none
with_specs j (some m) =
    some (record j { meta = set_type_meta "XDLJob" group_version j.meta; specs = m })

-- SetDefaults_XDLJob.
unfoldable pub set_defaults : Job → Option Job
set_defaults j = with_specs (set_spec j) (each (λ _. set_replica) (set_type_names j.specs))
