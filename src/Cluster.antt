-- ===== src/Cluster.antt =====
-- controllers/tensorflow/tensorflow.go: the cluster in the TF_CONFIG of a pod; GetPortFromJob of
-- pkg/job_controller/util.go and GenGeneralName of pkg/util/util.go.
pub mod Defaulted
mod Tests
use Prim.Native.Char.{code}
use Prim.Native.String.{String}
use kubedl.Prelude.{
  ℕ, zero, suc, ◌+◌, Bool, true, false, not, ◌&&◌, Option, none, some, List, [], ◌∷◌, ◌==◌, str_eq,
  if◌then◌else◌,
}
use kubedl.Prelude.Map.{lookup, insert}
use kubedl.Prelude.Text.{to_lower}
use kubedl.Prelude.Format.{◌<>◌, decimal}
use kubedl.Defaults.{ContainerPort, Container, Replica, Specs}

-- strings.Replace of each slash by a dash.
unfoldable pub dashed : String → String
dashed String.[] = String.[]
dashed (String.◌∷◌ c s) = if code c == b'/' then "-" <> dashed s else String.◌∷◌ c (dashed s)

-- GenGeneralName.
unfoldable pub gen_general_name : String → String → String → String
gen_general_name job rtype index = dashed (job <> "-" <> rtype <> "-" <> index)

unfoldable pub find_port : String → List ContainerPort → Option ℕ
find_port name [] = none
find_port name (p ∷ ps) =
    let rest = find_port name ps in if str_eq p.name name then some p.container_port else rest

abbrev pub or_else : Option ℕ → Option ℕ → Option ℕ
or_else (some n) rest = some n
or_else none rest = rest

-- GetPortFromJob, on the containers of the replica type; none is an error.
unfoldable pub get_port_from_job : String → String → List Container → Option ℕ
get_port_from_job container port [] = none
get_port_from_job container port (c ∷ cs) =
    let rest = get_port_from_job container port cs in
    if str_eq c.name container then or_else (find_port port c.ports) rest else rest

-- What the endpoints depend on: `host_port` is the port of the pod itself on the network of its host,
-- with its type and index, where the job uses it.
pub record Setting : Type 0 where
  pub name : String
  pub namespace : String
  pub cluster_domain : String
  pub host_port : Option (String × (String × ℕ))

abbrev pub port_of : Option (String × (String × ℕ)) → String → String → ℕ → ℕ
port_of none rt index port = port
port_of (some (t, (i, n))) rt index port = if str_eq rt t && str_eq index i then n else port

-- The address of a replica.
unfoldable pub endpoint : Setting → String → ℕ → ℕ → String
endpoint c rt port i =
    let svc = gen_general_name c.name rt (decimal i) <> "." <> c.namespace <> "." <> "svc" in
    (if str_eq c.cluster_domain "" then svc else svc <> "." <> c.cluster_domain)
    <> ":"
    <> decimal (port_of c.host_port rt (decimal i) port)

-- The addresses of `n` replicas from `i` on.
unfoldable pub endpoints : Setting → String → ℕ → ℕ → ℕ → List String
endpoints c rt port i zero = []
endpoints c rt port i (suc n) = endpoint c rt port i ∷ endpoints c rt port (i + 1) n

abbrev pub ClusterSpec : Type 0
ClusterSpec = List (String × List String)

abbrev pub entry : Setting → String → Option ℕ → Option ℕ → ClusterSpec → Option ClusterSpec
entry c rt none port m = none
entry c rt (some n) none m = none
entry c rt (some n) (some port) m = some (insert rt (endpoints c rt port 0 n) m)

-- The loop of genClusterSpec from a cluster on; none is an error, or a nil dereference.
unfoldable pub gen_from : Setting → Specs → ClusterSpec → Option ClusterSpec
gen_from c [] m = some m
gen_from c ((t, r) ∷ specs) m =
    let rt = to_lower t in
    if str_eq t "Evaluator"
    then gen_from c specs m
    else elim (entry c rt r.replicas (get_port_from_job "tensorflow" "tfjob-port" r.containers) m) [
      | none ↦ none
      | some m' ↦ gen_from c specs m'
    ]

-- genClusterSpec.
unfoldable pub gen_cluster_spec : Setting → Specs → Option ClusterSpec
gen_cluster_spec c specs = gen_from c specs []

abbrev pub count : Option Replica → ℕ
count none = 0
count (some r) = elim r.replicas [ none ↦ 1 | some n ↦ n ]

-- isDistributed.
unfoldable pub is_distributed : Specs → Bool
is_distributed m = not (
    count (lookup "Chief" m)
      + count (lookup "Evaluator" m)
      + count (lookup "Master" m)
      + count (lookup "PS" m)
      + count (lookup "Worker" m)
    == 1)
