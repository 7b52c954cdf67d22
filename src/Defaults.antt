-- ===== src/Defaults.antt =====
-- apis/training/v1alpha1: what the defaulting of the job kinds shares, and
-- enableFallbackToLogsOnErrorTerminationMessagePolicy of common.go. A field that is not set is none;
-- no replica specification is nil.
pub mod Tensorflow
pub mod Pytorch
pub mod Xdl
pub mod XgBoost
pub mod Mars
pub mod Mpi
pub mod ElasticBatch
pub mod Serving
pub mod Replicas
pub mod Complete
pub mod Tests
use kubedl.Prelude.{
  ℕ, zero, suc, ◌+◌, String, Bool, true, false, not, ◌&&◌, Option, none, some, List, [], ◌∷◌, ◌++◌,
  map, str_eq, if◌then◌else◌,
}
use kubedl.Prelude.Map.{lookup, insert, delete, has_key}
use kubedl.Prelude.Text.{to_lower}
use kubedl.Api.{RestartPolicy, CleanPodPolicy, SuccessPolicy, DagCondition, PodPhase}

pub record ContainerPort : Type 0 where
  pub name : String
  pub container_port : ℕ

-- corev1.TerminationMessagePolicy.
pub data TerminationMessagePolicy : Type 0 where
  read_file fallback_to_logs_on_error : TerminationMessagePolicy

pub record Container : Type 0 where
  pub name : String
  pub ports : List ContainerPort
  pub env : List (String × String)
  pub termination_message_policy : Option TerminationMessagePolicy

-- A ReplicaSpec with the containers of its template.
pub record Replica : Type 0 where
  pub replicas : Option ℕ
  pub restart_policy : Option RestartPolicy
  pub depend_on : List DagCondition
  pub containers : List Container

abbrev pub Specs : Type 0
Specs = List (String × Replica)

pub record TypeMeta : Type 0 where
  pub kind : String
  pub api_version : String

module _ {ℓ} {A : Type ℓ} where
  abbrev pub or_default : A → Option A → Option A
  or_default d none = some d
  or_default d (some x) = some x

abbrev pub or_text : String → String → String
or_text d s = if str_eq s "" then d else s

unfoldable pub set_type_meta : String → String → TypeMeta → TypeMeta
set_type_meta kind version t = record {
  kind = or_text kind t.kind;
  api_version = or_text version t.api_version;
}

-- GroupVersion.String() of the training kinds.
abbrev pub group_version : String
group_version = "training.kubedl.io/v1alpha1"

-- The loop that looks for the default container.
unfoldable pub index_of_container : String → List Container → Option ℕ
index_of_container name [] = none
index_of_container name (c ∷ cs) =
    let rest = index_of_container name cs in
    if str_eq c.name name then some 0 else elim rest [ none ↦ none | some i ↦ some (suc i) ]

-- An assignment to a part of spec.Containers[index], which panics out of range.
unfoldable pub update_at : ℕ → (Container → Container) → List Container → Option (List Container)
update_at i f [] = none
update_at zero f (c ∷ cs) = some (f c ∷ cs)
update_at (suc i) f (c ∷ cs) = elim (update_at i f cs) [ none ↦ none | some ds ↦ some (c ∷ ds) ]

unfoldable pub has_port : String → List ContainerPort → Bool
has_port name [] = false
has_port name (p ∷ ps) = let rest = has_port name ps in if str_eq p.name name then true else rest

unfoldable pub add_port : String → ℕ → Container → Container
add_port port number c =
    if has_port port c.ports
    then c
    else record c { ports = c.ports ++ record { name = port; container_port = number } ∷ [] }

abbrev pub or_first : Option ℕ → ℕ
or_first none = 0
or_first (some i) = i

-- The port goes to the container of the name, or else to the first one.
unfoldable pub set_port : String → String → ℕ → List Container → Option (List Container)
set_port container port number cs =
    update_at (or_first (index_of_container container cs)) (add_port port number) cs

-- The port goes to the container of the name, if there is one.
unfoldable pub set_port_if_found : String → String → ℕ → List Container → Option (List Container)
set_port_if_found container port number cs = elim (index_of_container container cs) [
  | none ↦ some cs
  | some i ↦ update_at i (add_port port number) cs
]

abbrev pub with_fallback : Container → Container
with_fallback c = record c {
  termination_message_policy = or_default fallback_to_logs_on_error c.termination_message_policy;
}

-- enableFallbackToLogsOnErrorTerminationMessagePolicy.
unfoldable pub enable_fallback_to_logs : List Container → List Container
enable_fallback_to_logs [] = []
enable_fallback_to_logs (c ∷ cs) = with_fallback c ∷ enable_fallback_to_logs cs

-- strings.EqualFold.
unfoldable pub equal_fold : String → String → Bool
equal_fold a b = str_eq (to_lower a) (to_lower b)

-- The first key that is the type in another case.
unfoldable pub find_variant : String → Specs → Option (String × Replica)
find_variant type [] = none
find_variant type ((k, r) ∷ m) =
    let rest = find_variant type m in
    if equal_fold k type && not (str_eq k type) then some (k, r) else rest

unfoldable pub set_type_name : String → Specs → Specs
set_type_name type m = elim (find_variant type m) [
  | none ↦ m
  | some kr ↦ insert type kr.1 (delete kr.0 m)
]

unfoldable pub modify : String → (Replica → Replica) → Specs → Specs
modify k f [] = []
modify k f ((j, r) ∷ m) = let rest = modify k f m in (j, if str_eq j k then f r else r) ∷ rest

abbrev pub running_upstream : String → DagCondition
running_upstream upstream = record { upstream = upstream; on_phase = PodPhase.running }

-- The type waits for the upstream type to run, where the job has both.
unfoldable pub set_upstream : String → String → Specs → Specs
set_upstream type upstream m =
    if has_key type m && has_key upstream m
    then modify type (λ r. record r { depend_on = running_upstream upstream ∷ [] }) m
    else m

-- The loop over the replica specifications, which ends where the first one panics.
unfoldable pub each : (String → Replica → Option Replica) → Specs → Option Specs
each f [] = some []
each f ((k, r) ∷ m) = elim (f k r) [
  | none ↦ none
  | some r' ↦ elim (each f m) [ none ↦ none | some m' ↦ some ((k, r') ∷ m') ]
]

abbrev pub with_containers : Replica → List Container → Replica
with_containers r cs = record r { containers = cs }

-- Where setting the port panics, so does the whole.
abbrev pub on_containers : Replica → Option (List Container) → Option Replica
on_containers r none = none
on_containers r (some cs) = some (with_containers r cs)
