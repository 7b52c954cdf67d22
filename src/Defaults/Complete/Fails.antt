-- ===== src/Defaults/Complete/Fails.antt =====
-- apis/training/v1alpha1/tfjob_defaults.go: when the defaulting of a TFJob panics.
use kubedl.Prelude.{
  ℕ, suc, String, Bool, true, false, ◌&&◌, Option, none, some, List, [], ◌∷◌, ◌≡◌, refl, ap, ◌∙◌,
  str_eq, is_some, if_rule, Bool-cases, inl, inr,
}
use kubedl.Prelude.Map.{has_key}
use kubedl.Defaults.{
  Container, Replica, Specs, index_of_container, or_first, update_at, add_port, set_port,
  enable_fallback_to_logs, modify, set_upstream, each, on_containers,
}
use kubedl.Defaults.Complete.Again.{IsCanonical, set_type_names_same}
use kubedl.Defaults.Tensorflow.{
  Job, set_job_port, set_replicas, set_dag_condition, set_replica, with_specs, prepare,
  set_defaults,
}

abbrev pub is_filled : List Container → Bool
is_filled [] = false
is_filled (c ∷ cs) = true

-- Every replica specification has a container.
abbrev pub all_filled : Specs → Bool
all_filled [] = true
all_filled ((k, r) ∷ m) = is_filled r.containers && all_filled m

module _ (f : Container → Container) where
  abbrev InRange : List Container → Option ℕ → Type 0
  InRange cs none = Unit {0}
  InRange cs (some i) = is_some (update_at i f cs) ≡ true

  push-InRange :
      (c : Container) (cs : List Container) (o : Option ℕ)
      → InRange cs o
      → InRange (c ∷ cs) (elim o [ none ↦ none | some i ↦ some (suc i) ])
  unfolding update_at
  push-InRange c cs none h = tt
  push-InRange c cs (some i) h = pushed (update_at i f cs) h
    where
      pushed :
          (o : Option (List Container))
          → is_some o ≡ true
          → is_some {A = List Container} (elim o [ none ↦ none | some ds ↦ some (c ∷ ds) ]) ≡ true
      pushed none h = h
      pushed (some ds) h = refl

  index-InRange : (name : String) (cs : List Container) → InRange cs (index_of_container name cs)
  unfolding index_of_container update_at
  index-InRange name [] = tt
  index-InRange name (c ∷ cs) =
      if_rule (InRange (c ∷ cs)) (str_eq c.name name) (λ _. refl)
        (λ _. push-InRange c cs (index_of_container name cs) (index-InRange name cs))

  first-InRange :
      (c : Container) (cs : List Container) (o : Option ℕ)
      → InRange (c ∷ cs) o
      → is_some (update_at (or_first o) f (c ∷ cs)) ≡ true
  unfolding update_at
  first-InRange c cs none h = refl
  first-InRange c cs (some i) h = h

set_port-is_some :
    (container port : String) (number : ℕ) (cs : List Container)
    → is_some (set_port container port number cs) ≡ is_filled cs
unfolding set_port update_at index_of_container
set_port-is_some container port number [] = refl
set_port-is_some container port number (c ∷ cs) =
    first-InRange (add_port port number) c cs (index_of_container container (c ∷ cs))
      (index-InRange (add_port port number) container (c ∷ cs))

enable-is_filled : (cs : List Container) → is_filled (enable_fallback_to_logs cs) ≡ is_filled cs
unfolding enable_fallback_to_logs
enable-is_filled [] = refl
enable-is_filled (c ∷ cs) = refl

on_containers-is_some :
    (r : Replica) (o : Option (List Container)) → is_some (on_containers r o) ≡ is_some o
on_containers-is_some r none = refl
on_containers-is_some r (some cs) = refl

set_replica-is_some : (r : Replica) → is_some (set_replica r) ≡ is_filled r.containers
unfolding set_replica set_job_port
set_replica-is_some r =
    let cs = enable_fallback_to_logs r.containers in
    on_containers-is_some (set_replicas r) (set_port "tensorflow" "tfjob-port" 2222 cs)
    ∙ set_port-is_some "tensorflow" "tfjob-port" 2222 cs
    ∙ enable-is_filled r.containers

each_step :
    (k : String) (o : Option Replica) (q : Option Specs)
    → is_some {A = Specs}
        (elim o [ none ↦ none | some r ↦ elim q [ none ↦ none | some m ↦ some ((k, r) ∷ m) ] ])
      ≡ is_some o && is_some q
each_step k none q = refl
each_step k (some r) none = refl
each_step k (some r) (some m) = refl

each-is_some : (m : Specs) → is_some (each (λ _. set_replica) m) ≡ all_filled m
unfolding each
each-is_some [] = refl
each-is_some ((k, r) ∷ m) =
    each_step k (set_replica r) (each (λ _. set_replica) m)
    ∙ rw (set_replica-is_some r, each-is_some m) refl

modify_filled :
    (d : String) (f : Replica → Replica) (m : Specs)
    → ((r : Replica) → (f r).containers ≡ r.containers)
    → all_filled (modify d f m) ≡ all_filled m
unfolding modify
modify_filled d f [] h = refl
modify_filled d f ((k, r) ∷ m) h = elim (Bool-cases (str_eq k d)) [
  | inl e ↦ rw (e, h r, modify_filled d f m h) refl
  | inr e ↦ rw (e, modify_filled d f m h) refl
]

upstream_filled : (d u : String) (m : Specs) → all_filled (set_upstream d u m) ≡ all_filled m
unfolding set_upstream
upstream_filled d u m =
    if_rule (λ x. all_filled x ≡ all_filled m) (has_key d m && has_key u m)
      (λ _. modify_filled d _ m (λ r. refl)) (λ _. refl)

prepare_filled :
    (dag : Bool) (m : Specs) → IsCanonical m → all_filled (prepare dag m) ≡ all_filled m
unfolding set_dag_condition
prepare_filled true m h = rw (set_type_names_same m h) (
    upstream_filled "Master" "PS" (set_upstream "Chief" "PS" (set_upstream "Worker" "PS" m))
    ∙ upstream_filled "Chief" "PS" (set_upstream "Worker" "PS" m)
    ∙ upstream_filled "Worker" "PS" m)
prepare_filled false m h = ap all_filled (set_type_names_same m h)

with_specs-is_some : (j : Job) (o : Option Specs) → is_some (with_specs j o) ≡ is_some o
with_specs-is_some j none = refl
with_specs-is_some j (some m) = refl

-- For a TFJob whose replica types are not given in a wrong case: the defaulting ends if and only if
-- every replica specification has a container; if one has none, it panics.
pub set_defaults-all_filled :
    (dag : Bool) (j : Job) → IsCanonical j.specs → is_some (set_defaults dag j) ≡ all_filled j.specs
unfolding set_defaults
set_defaults-all_filled dag j h =
    let m = prepare dag j.specs in
    with_specs-is_some j (each (λ _. set_replica) m) ∙ each-is_some m ∙ prepare_filled dag j.specs h
