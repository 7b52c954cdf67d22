-- ===== src/Defaults/ElasticBatch.antt =====
-- apis/inference/v1alpha1/defaults.go.
use kubedl.Prelude.{String, Bool, Option, none, some, List, [], ◌∷◌, ◌++◌, str_eq, if◌then◌else◌}
use kubedl.Prelude.Map.{has_key}
use kubedl.Api.{RestartPolicy, CleanPodPolicy, SuccessPolicy, replica_type_ai_master}
use kubedl.Defaults.{
  Container, Replica, Specs, TypeMeta, or_default, set_type_meta, set_port, running_upstream,
  enable_fallback_to_logs, set_type_name, each, on_containers, with_containers,
}

pub record Job : Type 0 where
  pub name : String
  pub namespace : String
  pub meta : TypeMeta
  pub clean_pod_policy : Option CleanPodPolicy
  pub success_policy : Option SuccessPolicy
  pub specs : Specs

-- setDefaultPort.
unfoldable pub set_default_port : List Container → Option (List Container)
set_default_port = set_port "elasticbatch" "elstcbatch-port" 23456

-- setDefaultAIMasterReplicas: always one.
unfoldable pub set_ai_master_replicas : Replica → Replica
set_ai_master_replicas r = record r {
  replicas = some 1;
  restart_policy = or_default RestartPolicy.never r.restart_policy;
}

-- setDefaultWorkerReplicas.
unfoldable pub set_worker_replicas : Replica → Replica
set_worker_replicas r = record r {
  replicas = or_default 1 r.replicas;
  restart_policy = or_default RestartPolicy.exit_code r.restart_policy;
}

-- setTypeNamesToCamelCase.
unfoldable pub set_type_names : Specs → Specs
set_type_names = set_type_name "Worker"

abbrev pub wait_for_ai_master : String → Replica → Replica
wait_for_ai_master rtype r =
    if str_eq rtype replica_type_ai_master
    then r
    else record r { depend_on = r.depend_on ++ running_upstream replica_type_ai_master ∷ [] }

unfoldable pub append_conditions : Specs → Specs
append_conditions [] = []
append_conditions ((k, r) ∷ m) = (k, wait_for_ai_master k r) ∷ append_conditions m

-- setDefaultDAGConditions.
unfoldable pub set_dag_conditions : Specs → Specs
set_dag_conditions m = if has_key replica_type_ai_master m then append_conditions m else m

abbrev pub with_env : Job → Container → Container
with_env j c = record c {
  env =
      c.env
      ++ ("JOB_NAME", j.name) ∷ ("NAMESPACE", j.namespace) ∷ ("JOB_TYPE", "ELASTICBATCH") ∷ [];
}

-- setDefaultAIMasterEnv: the first container of the name.
unfoldable pub set_ai_master_env : Job → List Container → List Container
set_ai_master_env j [] = []
set_ai_master_env j (c ∷ cs) =
    let rest = set_ai_master_env j cs in
    if str_eq c.name "elasticbatch" then with_env j c ∷ cs else c ∷ rest

abbrev pub env_containers : Job → Option (List Container) → Option (List Container)
env_containers j none = none
env_containers j (some cs) = some (set_ai_master_env j cs)

-- The body of the loop over the replica specifications.
unfoldable pub set_replica : Job → String → Replica → Option Replica
set_replica j rtype r =
    let cs = enable_fallback_to_logs r.containers in
    if str_eq rtype "Worker"
    then some (with_containers (set_worker_replicas r) cs)
    else if str_eq rtype replica_type_ai_master
    then on_containers (set_ai_master_replicas r) (env_containers j (set_default_port cs))
    else some (with_containers r cs)

abbrev pub with_specs : Job → Option Specs → Option Job
with_specs j none = none
with_specs j (some m) = some (record j {
  meta = set_type_meta "ElasticBatchJob" "inference.kubedl.io/v1alpha1" j.meta;
  clean_pod_policy = or_default CleanPodPolicy.no_pods j.clean_pod_policy;
  success_policy = or_default SuccessPolicy.all_workers j.success_policy;
  specs = m;
})

abbrev pub prepare : Bool → Specs → Specs
prepare dag m = if dag then set_dag_conditions (set_type_names m) else set_type_names m

-- SetDefaults_ElasticBatchJob, with the feature gate DAGScheduling.
unfoldable pub set_defaults : Bool → Job → Option Job
set_defaults dag j = with_specs j (each (set_replica j) (prepare dag j.specs))
