-- ===== src/Defaults/Complete/Again.antt =====
-- apis/training/v1alpha1/tfjob_defaults.go: defaulting a TFJob, once and again.
use kubedl.Prelude.{
  String, Bool, true, false, Option, none, some, ◌≡◌, refl, sym, ap, ◌∙◌, str_eq, Bool-cases, inl,
  inr,
}
use mathlib.Core.Path.{subst}
use kubedl.Api.{CleanPodPolicy, SuccessPolicy}
use kubedl.Defaults.{
  Replica, Specs, TypeMeta, or_text, or_default, set_type_meta, group_version, each, find_variant,
  set_upstream,
}
use kubedl.Defaults.Complete.{
  all_complete, Completes, set_replica-Completes, CompletesAll, each-CompletesAll, each_same,
}
use kubedl.Defaults.Complete.Upstream.{
  Settled, set_upstream_same, set_upstream-Settled, set_upstream-Settled-other, Depends, SameKeys,
  each-SameKeys, set_upstream_names, set_type_name_same,
}
use kubedl.Defaults.Tensorflow.{
  Job, set_type_names, set_dag_condition, set_replica, with_specs, prepare, set_defaults,
}

abbrev Named : String → Specs → Type 0
Named type m = find_variant type m ≡ none

-- No type of the job is one of the five in another case.
abbrev pub IsCanonical : Specs → Type 0
IsCanonical m =
    Named "PS" m × (Named "Worker" m × (Named "Chief" m × (Named "Master" m × Named "Evaluator" m)))

abbrev AllSettled : Specs → Type 0
AllSettled m = Settled "Worker" "PS" m × (Settled "Chief" "PS" m × Settled "Master" "PS" m)

abbrev WhenDag : Bool → Specs → Type 0
WhenDag true m = AllSettled m
WhenDag false m = Unit {0}

pub set_type_names_same : (m : Specs) → IsCanonical m → set_type_names m ≡ m
unfolding set_type_names
set_type_names_same m h = rw (set_type_name_same "PS" m h.0) (
    rw (set_type_name_same "Worker" m h.1.0) (
      rw (set_type_name_same "Chief" m h.1.1.0) (
        rw (set_type_name_same "Master" m h.1.1.1.0) (set_type_name_same "Evaluator" m h.1.1.1.1))))

dag-Named : (type : String) (m : Specs) → Named type m → Named type (set_dag_condition m)
unfolding set_dag_condition
dag-Named type m h =
    let w = set_upstream "Worker" "PS" m in
    set_upstream_names "Master" "PS" type (set_upstream "Chief" "PS" w)
      (set_upstream_names "Chief" "PS" type w (set_upstream_names "Worker" "PS" type m h))

dag-AllSettled : (m : Specs) → AllSettled (set_dag_condition m)
unfolding set_dag_condition
dag-AllSettled m =
    let w = set_upstream "Worker" "PS" m in
    let c = set_upstream "Chief" "PS" w in
    (
      set_upstream-Settled-other "Worker" "Master" "PS" c refl (
          set_upstream-Settled-other "Worker" "Chief" "PS" w refl
            (set_upstream-Settled "Worker" "PS" m)),
      (
        set_upstream-Settled-other "Chief" "Master" "PS" c refl
            (set_upstream-Settled "Chief" "PS" w),
        set_upstream-Settled "Master" "PS" c,
      ),
    )

dag_same : (m : Specs) → AllSettled m → set_dag_condition m ≡ m
unfolding set_dag_condition
dag_same m h =
    rw (set_upstream_same "Worker" "PS" m h.0)
      (rw (set_upstream_same "Chief" "PS" m h.1.0) (set_upstream_same "Master" "PS" m h.1.1))

prepare-IsCanonical :
    (dag : Bool) (m : Specs)
    → IsCanonical m
    → IsCanonical (prepare dag m) × WhenDag dag (prepare dag m)
prepare-IsCanonical true m h = rw (set_type_names_same m h) (
  (
    dag-Named "PS" m h.0,
    (
      dag-Named "Worker" m h.1.0,
      (
        dag-Named "Chief" m h.1.1.0,
        (dag-Named "Master" m h.1.1.1.0, dag-Named "Evaluator" m h.1.1.1.1),
      ),
    ),
  ),
  dag-AllSettled m,
)
prepare-IsCanonical false m h = (subst IsCanonical (sym (set_type_names_same m h)) h, tt)

prepare_same : (dag : Bool) (m : Specs) → IsCanonical m → WhenDag dag m → prepare dag m ≡ m
prepare_same true m h w = rw (set_type_names_same m h) (dag_same m w)
prepare_same false m h w = set_type_names_same m h

depends : (r : Replica) (o : Option Replica) → Completes r o → Depends (λ _. set_replica) r o
depends r none h = tt
depends r (some r') h = h.1

-- What a round of the loop leaves is prepared already, and complete.
abbrev IsFixed : Bool → Option Specs → Type 0
IsFixed dag none = Unit {0}
IsFixed dag (some m) = (prepare dag m ≡ m) × (all_complete m ≡ true)

keep-Settled :
    (d : String) (m m' : Specs)
    → SameKeys (λ _. set_replica) m (some m')
    → Settled d "PS" m
    → Settled d "PS" m'
keep-Settled d m m' k s e = k.1.0 d "PS" (s (rw (k.0 d, k.0 "PS") at e))

keep_dag :
    (dag : Bool) (m m' : Specs)
    → SameKeys (λ _. set_replica) m (some m')
    → WhenDag dag m
    → WhenDag dag m'
keep_dag true m m' k w = (
  keep-Settled "Worker" m m' k w.0,
  (keep-Settled "Chief" m m' k w.1.0, keep-Settled "Master" m m' k w.1.1),
)
keep_dag false m m' k w = tt

looped-IsFixed :
    (dag : Bool) (m : Specs) (o : Option Specs)
    → SameKeys (λ _. set_replica) m o
    → CompletesAll o
    → IsCanonical m
    → WhenDag dag m
    → IsFixed dag o
looped-IsFixed dag m none k c h w = tt
looped-IsFixed dag m (some m') k c h w =
    let n = k.1.1 in
    (
      prepare_same dag m'
          (
            n "PS" h.0,
            (
              n "Worker" h.1.0,
              (n "Chief" h.1.1.0, (n "Master" h.1.1.1.0, n "Evaluator" h.1.1.1.1)),
            ),
          )
          (keep_dag dag m m' k w),
      c,
    )

or_text_twice : (d s : String) → str_eq d "" ≡ false → or_text d (or_text d s) ≡ or_text d s
or_text_twice d s h = elim (Bool-cases (str_eq s "")) [
  | inl e ↦ rw (e) (rw (h) refl)
  | inr e ↦ rw (e) (rw (e) refl)
]

meta_twice :
    (t : TypeMeta)
    → set_type_meta "TFJob" group_version (set_type_meta "TFJob" group_version t)
      ≡ set_type_meta "TFJob" group_version t
unfolding set_type_meta
meta_twice t =
    rw (or_text_twice "TFJob" t.kind refl, or_text_twice group_version t.api_version refl) refl

or_default_twice :
    {A : Type 0} (d : A) (o : Option A) → or_default d (or_default d o) ≡ or_default d o
or_default_twice d none = refl
or_default_twice d (some x) = refl

abbrev Twice : Bool → Option Job → Type 0
Twice dag none = Unit {0}
Twice dag (some j) = (set_defaults dag j ≡ some j) × (all_complete j.specs ≡ true)

fixed-Twice : (dag : Bool) (j : Job) (o : Option Specs) → IsFixed dag o → Twice dag (with_specs j o)
unfolding set_defaults
fixed-Twice dag j none h = tt
fixed-Twice dag j (some m) h =
    let again : Job = record {
      meta = set_type_meta "TFJob" group_version j.meta;
      clean_pod_policy = or_default CleanPodPolicy.running_pods j.clean_pod_policy;
      success_policy = or_default SuccessPolicy.default_policy j.success_policy;
      specs = m;
    } in
    (
      ap (λ x. with_specs again (each (λ _. set_replica) x)) h.0
          ∙ ap (with_specs again) (each_same m h.1)
          ∙ rw
              (
                meta_twice j.meta,
                or_default_twice CleanPodPolicy.running_pods j.clean_pod_policy,
                or_default_twice SuccessPolicy.default_policy j.success_policy,
              )
              refl,
      h.1,
    )

known_job : {o : Option Job} {j : Job} (dag : Bool) → o ≡ some j → Twice dag o → Twice dag (some j)
known_job dag e h = subst (Twice dag) e h

defaults-Twice : (dag : Bool) (j : Job) → IsCanonical j.specs → Twice dag (set_defaults dag j)
unfolding set_defaults
defaults-Twice dag j h =
    let p = prepare-IsCanonical dag j.specs h in
    let m = prepare dag j.specs in
    fixed-Twice dag j (each (λ _. set_replica) m) (
      looped-IsFixed dag m (each (λ _. set_replica) m)
        (each-SameKeys (λ _. set_replica)
          (λ k r. depends r (set_replica r) (set_replica-Completes r)) m)
        (each-CompletesAll m) p.0 p.1)

-- For a TFJob whose replica types are not given in a wrong case, with or without DAG scheduling:
-- when the defaulting ends, every replica specification has its number of replicas, its restart
-- policy, the port of its main container and the termination message policies; and defaulting the
-- job again changes nothing.
pub set_defaults_twice :
    (dag : Bool) (j k : Job)
    → IsCanonical j.specs
    → set_defaults dag j ≡ some k
    → (set_defaults dag k ≡ some k) × (all_complete k.specs ≡ true)
set_defaults_twice dag j k h e = known_job dag e (defaults-Twice dag j h)
