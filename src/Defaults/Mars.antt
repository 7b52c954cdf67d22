-- ===== src/Defaults/Mars.antt =====
-- apis/training/v1alpha1/marsjob_defaults.go.
use kubedl.Prelude.{String, Bool, true, Option, none, some, List, str_eq, if◌then◌else◌}
use kubedl.Prelude.Map.{has_key}
use kubedl.Api.{RestartPolicy, CleanPodPolicy}
use kubedl.Defaults.{
  Container, Replica, Specs, TypeMeta, or_default, set_type_meta, group_version, set_port,
  enable_fallback_to_logs, set_type_name, set_upstream, each, on_containers,
}

-- MarsWorkerMemoryTuningPolicy.
pub record TuningPolicy : Type 0 where
  pub plasma_store : Option String
  pub lock_free_file_io : Option Bool

pub record Job : Type 0 where
  pub meta : TypeMeta
  pub clean_pod_policy : Option CleanPodPolicy
  pub worker_memory_tuning_policy : Option TuningPolicy
  pub specs : Specs

-- setDefaults_MarsJobPort.
unfoldable pub set_job_port : List Container → Option (List Container)
set_job_port = set_port "mars" "mars-port" 11111

abbrev pub set_replicas : RestartPolicy → Replica → Replica
set_replicas policy r = record r {
  replicas = or_default 1 r.replicas;
  restart_policy = or_default policy r.restart_policy;
}

-- setDefaults_MarsJobSchedulerReplicas.
unfoldable pub set_scheduler_replicas : Replica → Replica
set_scheduler_replicas = set_replicas RestartPolicy.never

-- setDefaults_MarsJobWorkerReplicas.
unfoldable pub set_worker_replicas : Replica → Replica
set_worker_replicas = set_replicas RestartPolicy.exit_code

-- setDefaults_MarsJobWebServiceReplicas.
unfoldable pub set_web_service_replicas : Replica → Replica
set_web_service_replicas = set_replicas RestartPolicy.always

abbrev pub with_tuning : TuningPolicy → TuningPolicy
with_tuning p = record {
  plasma_store = or_default "/dev/shm" p.plasma_store;
  lock_free_file_io = or_default true p.lock_free_file_io;
}

-- setDefaults_MarsJobWorkerMemTuningPolicy.
unfoldable pub set_tuning_policy : Option TuningPolicy → Option TuningPolicy
set_tuning_policy none =
    some (with_tuning (record { plasma_store = none; lock_free_file_io = none }))
set_tuning_policy (some p) = some (with_tuning p)

-- setDefaultMarsDAGConditions.
unfoldable pub set_dag_conditions : Specs → Specs
set_dag_conditions m = set_upstream "WebService" "Scheduler" (set_upstream "Worker" "Scheduler" m)

-- setTypeNames_MarsJob.
unfoldable pub set_type_names : Specs → Specs
set_type_names m = set_type_name "WebService" (set_type_name "Worker" (set_type_name "Scheduler" m))

abbrev pub set_replicas_of : String → Replica → Replica
set_replicas_of rtype r =
    if str_eq rtype "WebService"
    then set_web_service_replicas r
    else if str_eq rtype "Worker"
    then set_worker_replicas r
    else if str_eq rtype "Scheduler"
    then set_scheduler_replicas r
    else r

abbrev pub fallback_containers : Option (List Container) → Option (List Container)
fallback_containers none = none
fallback_containers (some cs) = some (enable_fallback_to_logs cs)

-- The body of the loop over the replica specifications, but for the tuning policy.
unfoldable pub set_replica : String → Replica → Option Replica
set_replica rtype r =
    on_containers (set_replicas_of rtype r) (fallback_containers (set_job_port r.containers))

-- The tuning policy is set in the turn of the workers.
abbrev pub with_specs : Job → Option Specs → Option Job
with_specs j none = none
with_specs j (some m) = some (record {
  meta = set_type_meta "MarsJob" group_version j.meta;
  clean_pod_policy = or_default CleanPodPolicy.no_pods j.clean_pod_policy;
  worker_memory_tuning_policy =
      if has_key "Worker" m
      then set_tuning_policy j.worker_memory_tuning_policy
      else j.worker_memory_tuning_policy;
  specs = m;
})

abbrev pub prepare : Bool → Specs → Specs
prepare dag m = if dag then set_dag_conditions (set_type_names m) else set_type_names m

-- SetDefaults_MarsJob, with the feature gate DAGScheduling.
unfoldable pub set_defaults : Bool → Job → Option Job
set_defaults dag j = with_specs j (each set_replica (prepare dag j.specs))
