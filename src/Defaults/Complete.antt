-- ===== src/Defaults/Complete.antt =====
-- What a TFJob has after its defaulting, and that defaulting again changes nothing.
pub mod Upstream
pub mod Again
pub mod Fails
use kubedl.Prelude.{
  ℕ, String, Bool, true, false, not, ◌&&◌, Option, none, some, List, [], ◌∷◌, ◌≡◌, refl, sym, ap,
  ◌∙◌, arith, str_eq, str_eq_iff, is_some, if◌then◌else◌, if_rule, Bool-cases, inl, inr,
}
use kubedl.Prelude.Map.{has_key}
use mathlib.Core.Path.{subst}
use kubedl.Api.{RestartPolicy, CleanPodPolicy, SuccessPolicy}
use kubedl.Defaults.{
  Container, Replica, Specs, TypeMeta, or_default, set_port, enable_fallback_to_logs, each,
  on_containers, find_variant, set_type_name, set_upstream, equal_fold,
}
use kubedl.Defaults.Replicas.{
  has_main_port, all_set, set_port-Main, set_port_same, enable_all_set, all_set_enable,
  or_default-is_some, or_default_same, Main,
}
use kubedl.Defaults.Tensorflow.{
  Job, set_job_port, set_type_names, set_dag_condition, set_replicas, set_replica, with_specs,
  prepare, set_defaults,
}

-- The number of replicas, the restart policy, the port of the main container and the termination
-- message policies are there.
abbrev pub is_complete : Replica → Bool
is_complete r =
    is_some r.replicas
    && is_some r.restart_policy
    && has_main_port "tensorflow" "tfjob-port" r.containers
    && all_set r.containers

abbrev pub all_complete : Specs → Bool
all_complete [] = true
all_complete ((k, r) ∷ m) = is_complete r && all_complete m

abbrev pub Completes : Replica → Option Replica → Type 0
Completes r none = Unit {0}
Completes r (some r') = (is_complete r' ≡ true) × (r'.depend_on ≡ r.depend_on)

containers-Completes :
    (r : Replica) (cs : List Container) (o : Option (List Container))
    → all_set cs ≡ true
    → Main "tensorflow" "tfjob-port" 2222 cs o
    → Completes r (on_containers (set_replicas r) o)
unfolding set_replicas
containers-Completes r cs none a h = tt
containers-Completes r cs (some ds) a h = (
  rw
      (
        or_default-is_some 1 r.replicas,
        or_default-is_some RestartPolicy.exit_code r.restart_policy,
        h.0,
        h.1,
      )
      a,
  refl,
)

pub set_replica-Completes : (r : Replica) → Completes r (set_replica r)
unfolding set_replica set_job_port
set_replica-Completes r =
    let cs = enable_fallback_to_logs r.containers in
    containers-Completes r cs (set_port "tensorflow" "tfjob-port" 2222 cs)
      (enable_all_set r.containers) (set_port-Main "tensorflow" "tfjob-port" 2222 cs)

set_replica_same : (r : Replica) → is_complete r ≡ true → set_replica r ≡ some r
unfolding set_replica set_job_port set_replicas
set_replica_same r h =
    rw
      (
        all_set_enable r.containers (ground arith),
        set_port_same "tensorflow" "tfjob-port" 2222 r.containers (ground arith),
        or_default_same 1 r.replicas (ground arith),
        or_default_same RestartPolicy.exit_code r.restart_policy (ground arith),
      )
      refl

abbrev pub CompletesAll : Option Specs → Type 0
CompletesAll none = Unit {0}
CompletesAll (some m) = all_complete m ≡ true

step-CompletesAll :
    (k : String) (r r' : Replica) (o : Option Specs)
    → Completes r (some r')
    → CompletesAll o
    → CompletesAll (elim o [ none ↦ none | some m ↦ some ((k, r') ∷ m) ])
step-CompletesAll k r r' none h i = tt
step-CompletesAll k r r' (some m) h i = rw (h.0) i

first-CompletesAll :
    (k : String) (r : Replica) (o : Option Replica) (q : Option Specs)
    → Completes r o
    → CompletesAll q
    → CompletesAll
        (elim o [ none ↦ none | some r' ↦ elim q [ none ↦ none | some m ↦ some ((k, r') ∷ m) ] ])
first-CompletesAll k r none q h i = tt
first-CompletesAll k r (some r') q h i = step-CompletesAll k r r' q h i

pub each-CompletesAll : (m : Specs) → CompletesAll (each (λ _. set_replica) m)
unfolding each
each-CompletesAll [] = refl
each-CompletesAll ((k, r) ∷ m) =
    first-CompletesAll k r (set_replica r) (each (λ _. set_replica) m) (set_replica-Completes r)
      (each-CompletesAll m)

each_cons :
    (f : String → Replica → Option Replica) (k : String) (r : Replica) (m : Specs)
    → f k r ≡ some r
    → each f m ≡ some m
    → each f ((k, r) ∷ m) ≡ some ((k, r) ∷ m)
unfolding each
each_cons f k r m e i = rw (each, e) (rw (i) refl)

pub each_same : (m : Specs) → all_complete m ≡ true → each (λ _. set_replica) m ≡ some m
unfolding each
each_same [] h = refl
each_same ((k, r) ∷ m) h =
    each_cons (λ _. set_replica) k r m (set_replica_same r (ground arith))
      (each_same m (ground arith))
