-- ===== src/Lib.antt =====
-- KubeDL: the core of its job controllers.
--
-- KubeDL is a Kubernetes operator for deep-learning workloads. A controller per job kind (TFJob,
-- PyTorchJob and so on) reconciles a job: it creates the pods and services that the job's replica
-- specifications ask for, counts the pods into the job's status, rolls the counts up into the job's
-- conditions, replaces failed pods, and cleans up when the job ends. A coordinator may hold jobs back
-- in the queues of their tenants before the controllers see them.
--
-- What models what:
--   Prelude        numbers, texts, maps (association lists in the order of one iteration of a Go map),
--                  integers, strconv.Atoi, fmt.Sprintf and strings.ToLower as far as they are used
--   Api, Kube      pkg/job_controller/api/v1/types.go; the pods of Kubernetes and the tests of
--                  pkg/util/k8sutil/k8sutil.go
--   Conditions     pkg/util/status.go. A status is a record and updateJobConditions a function of the
--                  clock and the status
--   Rollup         updateGeneralJobStatus of controllers/tensorflow, pytorch, elasticbatch, elasticdl,
--                  xdl and mars (status.go), and UpdateJobStatus of controllers/xgboost and mpi (job.go). The
--                  loop over the map of the replica types is recursion on a list, so a theorem for all
--                  lists is one for all orders. Events and metrics are counted in the state, and an
--                  early return, an error and a nil dereference are values of Flow
--   Dag            pkg/job_controller/dag_sched.go
--   Failover       pkg/util/train/train_util.go, and ShouldPodFailOver and RestartPod of
--                  pkg/job_controller/failover.go
--   Pods           GetPodSlices, reconcileOnePod and ReconcilePods of pkg/job_controller/pod.go, and
--                  pkg/job_controller/status.go. The calls to the API server are a list in the state
--   Jobs           pkg/job_controller/job.go: the limits of a job, and the branch of ReconcileJobs for
--                  a job that has ended; Jobs.Reconcile, its loop over the replica types
--   Services       pkg/job_controller/service.go: GetServiceSlices and ReconcileServices
--   Expectations   pkg/job_controller/expectations.go, with the store of the expectations as an interface
--   Coordinator    pkg/jobcoordinator/core: the queues, the index, the round robin and the scheduling
--                  cycle. Each critical section is one function. Coordinator.Events is
--                  pkg/jobcoordinator/eventhandler with pkg/job_controller/eventhandler_helpers.go,
--                  Coordinator.Priority the plugin for priorities
--   Quota          pkg/jobcoordinator/plugins/quota/quota.go: the filter that holds back a job without
--                  quota, over an interface for the arithmetic on resource lists
--   Elastic        controllers/pytorch/elastic_scale.go: the checkpoints of an elastic job, as a relation
--                  of steps of the controller, the AIMaster and the users; Elastic.Scale, the refresh
--                  of stale pods
--   Defaults       the defaulting of the job kinds, a module per kind, in apis/training/v1alpha1,
--                  apis/inference/v1alpha1/defaults.go and apis/serving/v1alpha1/defaults.go
--   Mpi            controllers/mpi/legacy.go and mpi_config.go; the status of an MPIJob is Rollup.Mpi
--   Gang           pkg/gang_schedule: the gangs of the coscheduler and of volcano, without resources
--   Cluster        controllers/tensorflow/tensorflow.go: the cluster that goes into TF_CONFIG
--   Gate           pkg/util/workloadgate/workload_gate.go
--   Cron           controllers/apps/cron_utils.go: when a cron workload is due. Trim, History, Sync and
--                  Reconcile are the functions of controllers/apps/cron_controller.go of these names.
--                  A Go slice there is an array and a length, since a deletion writes into the array
--                  that a loop reads
--
-- How the parts meet: ReconcilePods counts the pods of a type into the replica statuses, from which the
-- roll-up of the job kind sets the conditions; both enter conditions by Conditions. Failover decides
-- for Pods which pods are replaced, Dag when a type may start, and Jobs ends the job by Conditions. The
-- coordinator marks queued jobs by Conditions too.
--
-- Choices: times are natural numbers (nanoseconds in Jobs and Cron) and every read of the clock is an
-- argument. The answers of the API server and the plugins of the coordinator are arguments as well.
-- Counters count pods from zero and are natural numbers; where the source multiplies or converts (the
-- minimum to finish of XDL, the deadline of a job) the wrap-around is written out. Three definitions
-- run on fuel: the printing of a number, which divides by ten at most as often as its value, the
-- bitwise and, which goes through the 32 digits of an int32, and the loop of a cron over its schedule,
-- for which the nanoseconds that are left are enough. The counts in the older fields of an MPIJob, which
-- may be negative, are integers.
--
-- Not modelled: clients and informers, generated code, the serving, model, notebook and cache
-- controllers, storage and console, the environment that the kinds but TFJobs give their pods,
-- kube-batch, the elastic scaling of TFJobs, the templates of crons, and the event handlers of pods
-- and services.
pub mod Prelude
pub mod Api
pub mod Kube
pub mod Conditions
pub mod Rollup
pub mod Dag
pub mod Failover
pub mod Pods
pub mod Services
pub mod Expectations
pub mod Coordinator
pub mod Cron
pub mod Quota
pub mod Elastic
pub mod Defaults
pub mod Mpi
pub mod Gate
pub mod Gang
pub mod Cluster
pub mod Jobs
