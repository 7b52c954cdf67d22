-- ===== src/Cluster/Defaulted.antt =====
-- The cluster of a TFJob that has its defaults.
use kubedl.Prelude.{
  ℕ, suc, String, Bool, true, false, ◌&&◌, Option, none, some, List, [], ◌∷◌, ◌≡◌, refl, arith,
  str_eq, is_some, if◌then◌else◌, Bool-cases, inl, inr,
}
use kubedl.Defaults.{ContainerPort, Container, Specs, index_of_container, or_first, has_port}
use kubedl.Defaults.Replicas.{container_at, has_port_in, has_main_port}
use kubedl.Defaults.Complete.{all_complete}
use kubedl.Defaults.Complete.Again.{IsCanonical, set_defaults_twice}
use kubedl.Defaults.Tensorflow.{Job, set_defaults}
use kubedl.Cluster.{
  Setting, ClusterSpec, find_port, or_else, get_port_from_job, entry, gen_from, gen_cluster_spec,
}

-- A container has the name.
abbrev pub is_named : String → List Container → Bool
is_named name [] = false
is_named name (c ∷ cs) = if str_eq c.name name then true else is_named name cs

-- Every type but the evaluator has a container named tensorflow.
abbrev pub all_named : Specs → Bool
all_named [] = true
all_named ((t, r) ∷ m) =
    (if str_eq t "Evaluator" then true else is_named "tensorflow" r.containers) && all_named m

port_found :
    (port : String) (ps : List ContainerPort)
    → has_port port ps ≡ true
    → is_some (find_port port ps) ≡ true
unfolding has_port find_port
port_found port [] h = absurd cc
port_found port (p ∷ ps) h = ground (arith, port_found port ps)

or_else-is_some : (o rest : Option ℕ) → is_some o ≡ true → is_some (or_else o rest) ≡ true
or_else-is_some none rest h = absurd cc
or_else-is_some (some n) rest h = refl

shifted :
    (port : String) (c : Container) (cs : List Container) (o : Option ℕ)
    → is_some o ≡ true
    → has_port_in port
        (container_at (or_first (elim o [ none ↦ none | some i ↦ some (suc i) ])) (c ∷ cs))
      ≡ true
    → has_port_in port (container_at (or_first o) cs) ≡ true
shifted port c cs none s h = absurd cc
shifted port c cs (some i) s h = h

named_index :
    (name : String) (cs : List Container)
    → is_named name cs ≡ true
    → is_some (index_of_container name cs) ≡ true
unfolding index_of_container
named_index name [] h = absurd cc
named_index name (c ∷ cs) h = elim (Bool-cases (str_eq c.name name)) [
  | inl e ↦ rw (e) refl
  | inr e ↦ rw (e) (later (index_of_container name cs) (named_index name cs (rw (e) at h)))
]
  where
    later :
        (o : Option ℕ)
        → is_some o ≡ true
        → is_some {A = ℕ} (elim o [ none ↦ none | some i ↦ some (suc i) ]) ≡ true
    later none h = h
    later (some i) h = refl

main_port :
    (name port : String) (cs : List Container)
    → is_named name cs ≡ true
    → has_main_port name port cs ≡ true
    → is_some (get_port_from_job name port cs) ≡ true
unfolding index_of_container get_port_from_job
main_port name port [] n h = absurd cc
main_port name port (c ∷ cs) n h = elim (Bool-cases (str_eq c.name name)) [
  | inl e ↦
      rw (e) (or_else-is_some (find_port port c.ports) _ (port_found port c.ports (rw (e) at h)))
  | inr e ↦ rw (e) (
      main_port name port cs (rw (e) at n) (
        shifted port c cs (index_of_container name cs) (named_index name cs (rw (e) at n))
          (rw (e) at h)))
]

entry-is_some :
    (c : Setting) (rt : String) (n port : Option ℕ) (m : ClusterSpec)
    → is_some n ≡ true
    → is_some port ≡ true
    → is_some (entry c rt n port m) ≡ true
entry-is_some c rt none port m h k = absurd cc
entry-is_some c rt (some n) none m h k = absurd cc
entry-is_some c rt (some n) (some port) m h k = refl

continues :
    (c : Setting) (specs : Specs) (x : Option ClusterSpec)
    → is_some x ≡ true
    → ((m : ClusterSpec) → is_some (gen_from c specs m) ≡ true)
    → is_some {A = ClusterSpec} (elim x [ none ↦ none | some m ↦ gen_from c specs m ]) ≡ true
continues c specs none h k = h
continues c specs (some m) h k = k m

gen_from-is_some :
    (c : Setting) (specs : Specs) (m : ClusterSpec)
    → all_complete specs ≡ true
    → all_named specs ≡ true
    → is_some (gen_from c specs m) ≡ true
unfolding gen_from
gen_from-is_some c [] m h n = refl
gen_from-is_some c ((t, r) ∷ specs) m h n = elim (Bool-cases (str_eq t "Evaluator")) [
  | inl e ↦ rw (e) (gen_from-is_some c specs m (ground arith) (rw (e) at n))
  | inr e ↦
      let k : is_named "tensorflow" r.containers && all_named specs ≡ true = rw (e) at n in
      rw (e) (
        continues c specs _
          (entry-is_some c _ r.replicas _ m (ground arith)
            (main_port "tensorflow" "tfjob-port" r.containers (ground arith) (ground arith)))
          (λ m'. gen_from-is_some c specs m' (ground arith) (ground arith)))
]

-- For a TFJob whose replica types are not given in a wrong case: once its defaulting has ended, the
-- cluster for TF_CONFIG can be generated whatever the setting, without an error and without a nil
-- dereference, if every type but the evaluator has a container named tensorflow.
pub gen_cluster_spec-set_defaults :
    (dag : Bool) (j k : Job) (c : Setting)
    → IsCanonical j.specs
    → set_defaults dag j ≡ some k
    → all_named k.specs ≡ true
    → is_some (gen_cluster_spec c k.specs) ≡ true
unfolding gen_cluster_spec
gen_cluster_spec-set_defaults dag j k c h e n =
    gen_from-is_some c k.specs [] (set_defaults_twice dag j k h e).1 n
