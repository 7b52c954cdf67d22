-- ===== src/Defaults/Tensorflow.antt =====
-- apis/training/v1alpha1/tfjob_defaults.go.
use kubedl.Prelude.{Bool, Option, none, some, List, if◌then◌else◌}
use kubedl.Api.{RestartPolicy, CleanPodPolicy, SuccessPolicy}
use kubedl.Defaults.{
  Container, Replica, Specs, TypeMeta, or_default, set_type_meta, group_version, set_port,
  enable_fallback_to_logs, set_type_name, set_upstream, each, on_containers,
}

pub record Job : Type 0 where
  pub meta : TypeMeta
  pub clean_pod_policy : Option CleanPodPolicy
  pub success_policy : Option SuccessPolicy
  pub specs : Specs

-- setDefaults_TFJobPort.
unfoldable pub set_job_port : List Container → Option (List Container)
set_job_port = set_port "tensorflow" "tfjob-port" 2222

-- setTypeNames_TFJob.
unfoldable pub set_type_names : Specs → Specs
set_type_names m =
    set_type_name "Evaluator" (
      set_type_name "Master"
        (set_type_name "Chief" (set_type_name "Worker" (set_type_name "PS" m))))

-- setDefaultTFDAGCondition.
unfoldable pub set_dag_condition : Specs → Specs
set_dag_condition m =
    set_upstream "Master" "PS" (set_upstream "Chief" "PS" (set_upstream "Worker" "PS" m))

-- setDefaults_TFJobReplicas.
unfoldable pub set_replicas : Replica → Replica
set_replicas r = record r {
  replicas = or_default 1 r.replicas;
  restart_policy = or_default RestartPolicy.exit_code r.restart_policy;
}

-- The body of the loop over the replica specifications.
unfoldable pub set_replica : Replica → Option Replica
set_replica r = on_containers (set_replicas r) (set_job_port (enable_fallback_to_logs r.containers))

abbrev pub with_specs : Job → Option Specs → Option Job
with_specs j none = none
with_specs j (some m) = some (record {
  meta = set_type_meta "TFJob" group_version j.meta;
  clean_pod_policy = or_default CleanPodPolicy.running_pods j.clean_pod_policy;
  success_policy = or_default SuccessPolicy.default_policy j.success_policy;
  specs = m;
})

abbrev pub prepare : Bool → Specs → Specs
prepare dag m = if dag then set_dag_condition (set_type_names m) else set_type_names m

-- SetDefaults_TFJob, with the feature gate DAGScheduling.
unfoldable pub set_defaults : Bool → Job → Option Job
set_defaults dag j = with_specs j (each (λ _. set_replica) (prepare dag j.specs))
