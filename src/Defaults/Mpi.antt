-- ===== src/Defaults/Mpi.antt =====
-- apis/training/v1alpha1/mpijob_default.go.
use kubedl.Prelude.{String, Bool, Option, none, some, List, str_eq, if◌then◌else◌}
use kubedl.Api.{RestartPolicy, CleanPodPolicy}
use kubedl.Defaults.{
  Container, Replica, Specs, TypeMeta, or_default, set_type_meta, group_version, set_port,
  enable_fallback_to_logs, set_upstream, each, on_containers, with_containers,
}

-- The run policy within the legacy fields, as far as its clean pod policy; both are pointers.
pub record LegacySpec : Type 0 where
  pub run_policy : Option (Option CleanPodPolicy)

pub record Job : Type 0 where
  pub meta : TypeMeta
  pub legacy : Option LegacySpec
  pub specs : Specs

-- setDefaults_MPIJobPort.
unfoldable pub set_job_port : List Container → Option (List Container)
set_job_port = set_port "mpi" "mpi-port" 2222

abbrev pub then_fallback : Option Replica → Option Replica
then_fallback none = none
then_fallback (some r) = some (with_containers r (enable_fallback_to_logs r.containers))

-- setDefaults_MPIJobLauncherReplica: the number of replicas gets no default.
unfoldable pub set_launcher : Replica → Option Replica
set_launcher r = then_fallback (
    on_containers (record r { restart_policy = or_default RestartPolicy.never r.restart_policy })
      (set_job_port r.containers))

-- setDefaults_MPIJobWorkerReplica.
unfoldable pub set_worker : Replica → Option Replica
set_worker r = then_fallback (
    on_containers (record r { restart_policy = or_default RestartPolicy.never r.restart_policy })
      (set_job_port r.containers))

-- The two calls for the launcher and the workers.
unfoldable pub set_replica : String → Replica → Option Replica
set_replica rtype r =
    if str_eq rtype "Launcher"
    then set_launcher r
    else if str_eq rtype "Worker"
    then set_worker r
    else some r

-- setDefaultMPIDAGConditions.
unfoldable pub set_dag_conditions : Specs → Specs
set_dag_conditions = set_upstream "Launcher" "Worker"

abbrev pub policy_of : Option (Option CleanPodPolicy) → Option CleanPodPolicy
policy_of none = none
policy_of (some p) = p

unfoldable pub set_legacy : Option LegacySpec → Option LegacySpec
set_legacy none = none
set_legacy (some l) =
    some (record {
      run_policy = some (or_default CleanPodPolicy.running_pods (policy_of l.run_policy));
    })

abbrev pub with_specs : Bool → Job → Option Specs → Option Job
with_specs dag j none = none
with_specs dag j (some m) = some (record {
  meta = set_type_meta "MPIJob" group_version j.meta;
  legacy = set_legacy j.legacy;
  specs = if dag then set_dag_conditions m else m;
})

-- SetDefaults_MPIJob, with the feature gate DAGScheduling.
unfoldable pub set_defaults : Bool → Job → Option Job
set_defaults dag j = with_specs dag j (each set_replica j.specs)
