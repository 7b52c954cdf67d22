-- ===== src/Defaults/Pytorch.antt =====
-- apis/training/v1alpha1/pytorchjob_defaults.go.
use kubedl.Prelude.{String, Bool, Option, none, some, List, str_eq, if◌then◌else◌}
use kubedl.Api.{RestartPolicy, CleanPodPolicy, replica_type_ai_master}
use kubedl.Defaults.{
  Container, Replica, Specs, TypeMeta, or_default, set_type_meta, group_version, set_port_if_found,
  enable_fallback_to_logs, set_type_name, set_upstream, each, on_containers, with_containers,
}

pub record Job : Type 0 where
  pub meta : TypeMeta
  pub clean_pod_policy : Option CleanPodPolicy
  pub specs : Specs

-- setDefaults_PyTorchJobPort.
unfoldable pub set_job_port : List Container → Option (List Container)
set_job_port = set_port_if_found "pytorch" "pytorchjob-port" 23456

-- setDefaults_PyTorchJobMasterReplicas.
unfoldable pub set_master_replicas : Replica → Replica
set_master_replicas r = record r {
  replicas = or_default 1 r.replicas;
  restart_policy = or_default RestartPolicy.exit_code r.restart_policy;
}

-- setDefaults_PyTorchJobWorkerReplicas.
unfoldable pub set_worker_replicas : Replica → Replica
set_worker_replicas r = record r {
  replicas = or_default 1 r.replicas;
  restart_policy = or_default RestartPolicy.on_failure r.restart_policy;
}

-- setTypeNames_PyTorchJob.
unfoldable pub set_type_names : Specs → Specs
set_type_names m = set_type_name "Worker" (set_type_name "Master" m)

-- setDefaultPyTorchDAGConditions.
unfoldable pub set_dag_conditions : Specs → Specs
set_dag_conditions m =
    set_upstream "Worker" "Master" (set_upstream "Master" replica_type_ai_master m)

abbrev pub then_fallback : Option Replica → Option Replica
then_fallback none = none
then_fallback (some r) = some (with_containers r (enable_fallback_to_logs r.containers))

-- The body of the loop over the replica specifications.
unfoldable pub set_replica : String → Replica → Option Replica
set_replica rtype r =
    if str_eq rtype "Worker"
    then then_fallback (some (set_worker_replicas r))
    else if str_eq rtype "Master"
    then then_fallback (on_containers (set_master_replicas r) (set_job_port r.containers))
    else then_fallback (some r)

abbrev pub with_specs : Job → Option Specs → Option Job
with_specs j none = none
with_specs j (some m) = some (record {
  meta = set_type_meta "PyTorchJob" group_version j.meta;
  clean_pod_policy = or_default CleanPodPolicy.no_pods j.clean_pod_policy;
  specs = m;
})

abbrev pub prepare : Bool → Specs → Specs
prepare dag m = if dag then set_dag_conditions (set_type_names m) else set_type_names m

-- SetDefaults_PyTorchJob, with the feature gate DAGScheduling.
unfoldable pub set_defaults : Bool → Job → Option Job
set_defaults dag j = with_specs j (each set_replica (prepare dag j.specs))
