-- ===== src/Cluster/Tests.antt =====
-- The cluster of a TFJob with a worker and a parameter server.
use kubedl.Prelude.{true, none, ◌≡◌, refl, is_some}
use kubedl.Prelude.Map.{lookup, has_key}
use kubedl.Prelude.Text.{to_lower}
use kubedl.Prelude.Format.{decimal, decimal_on, digit}
use kubedl.Defaults.{
  set_type_meta, index_of_container, update_at, has_port, add_port, set_port,
  enable_fallback_to_logs, equal_fold, find_variant, set_type_name, modify, set_upstream, each,
}
use kubedl.Defaults.Tensorflow.{
  set_job_port, set_type_names, set_dag_condition, set_replicas, set_replica, set_defaults,
}
use kubedl.Defaults.Tests.{job, canonical, ends, from_some}
use kubedl.Cluster.{Setting, dashed, gen_general_name, endpoint, gen_cluster_spec}
use kubedl.Cluster.Defaulted.{all_named, gen_cluster_spec-set_defaults}

abbrev setting : Setting
setting = record { name = "team/mnist"; namespace = "ns"; cluster_domain = ""; host_port = none }

first_worker : endpoint setting "worker" 2222 0 ≡ "team-mnist-worker-0.ns.svc:2222"
unfolding endpoint gen_general_name dashed decimal decimal_on digit
first_worker = refl

named : all_named (from_some (set_defaults true job)).specs ≡ true
unfolding set_defaults set_type_meta each set_replica set_replicas set_job_port set_port
    index_of_container update_at add_port has_port enable_fallback_to_logs set_dag_condition
    set_upstream modify has_key lookup set_type_names set_type_name find_variant equal_fold to_lower
named = refl

gen_cluster_spec-set_defaults_example :
    is_some (gen_cluster_spec setting (from_some (set_defaults true job)).specs) ≡ true
gen_cluster_spec-set_defaults_example =
    gen_cluster_spec-set_defaults true job (from_some (set_defaults true job)) setting canonical
      ends named
