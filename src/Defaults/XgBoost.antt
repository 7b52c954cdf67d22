-- ===== src/Defaults/XgBoost.antt =====
-- apis/training/v1alpha1/xgboostjob_defaults.go.
use kubedl.Prelude.{ℕ, Bool, Option, none, some, List, if◌then◌else◌}
use kubedl.Api.{CleanPodPolicy}
use kubedl.Defaults.{
  Container, Replica, Specs, TypeMeta, or_default, set_type_meta, group_version, set_port,
  enable_fallback_to_logs, set_type_name, set_upstream, each, on_containers,
}

pub record Job : Type 0 where
  pub meta : TypeMeta
  pub clean_pod_policy : Option CleanPodPolicy
  pub ttl_seconds_after_finished : Option ℕ
  pub specs : Specs

-- setDefaults_XGBoostJobSpec.
unfoldable pub set_spec : Job → Job
set_spec j = record j {
  clean_pod_policy = or_default CleanPodPolicy.no_pods j.clean_pod_policy;
  ttl_seconds_after_finished = or_default 100 j.ttl_seconds_after_finished;
}

-- setDefaults_XGBoostJobPort.
unfoldable pub set_job_port : List Container → Option (List Container)
set_job_port = set_port "xgboostjob" "xgboostjob-port" 9999

-- setTypeNames_XGBoostJob.
unfoldable pub set_type_names : Specs → Specs
set_type_names m = set_type_name "Worker" (set_type_name "Master" m)

-- setDefaults_XGBoostJobReplicas: the restart policy gets no default.
unfoldable pub set_replicas : Replica → Replica
set_replicas r = record r { replicas = or_default 1 r.replicas }

-- setDefaultXGBoostDAGConditions.
unfoldable pub set_dag_conditions : Specs → Specs
set_dag_conditions = set_upstream "Worker" "Master"

-- The body of the loop over the replica specifications.
unfoldable pub set_replica : Replica → Option Replica
set_replica r = on_containers (set_replicas r) (set_job_port (enable_fallback_to_logs r.containers))

abbrev pub with_specs : Bool → Job → Option Specs → Option Job
with_specs dag j none = none
with_specs dag j (some m) = some (record j {
  meta = set_type_meta "XGBoostJob" group_version j.meta;
  specs = if dag then set_dag_conditions m else m;
})

-- SetDefaults_XGBoostJob, with the feature gate DAGScheduling.
unfoldable pub set_defaults : Bool → Job → Option Job
set_defaults dag j = with_specs dag (set_spec j) (each (λ _. set_replica) (set_type_names j.specs))
