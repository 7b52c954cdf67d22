-- ===== src/Dag/Readiness.antt =====
-- What it means that the conditions of a replica type are ready.
use kubedl.Prelude.{
  ℕ, ◌≤◌, String, Bool, true, false, Option, none, some, List, [], ◌∷◌, ◌++◌, ◌≡◌, refl, ◌↔◌, arith,
  str_eq, str_eq_iff, length, ltb, if◌then◌else◌, sym, ap, ◌∙◌,
}
use mathlib.Core.List.{Memᴰ, append_assoc, append-nil}
use mathlib.Core.Path.{subst}
use kubedl.Prelude.Int.{is_negative}
use kubedl.Prelude.Map.{lookup, insert, lookup-insert}
use kubedl.Api.{PodPhase, DagCondition, ReplicaSpec}
use kubedl.Kube.{Pod}
use kubedl.Rollup.{Specs}
use kubedl.Dag.{
  phase_code, phase_comparator, collector, replica_type_of, PodMap, or_empty, add_pod, collect_pods,
  sort_pods_by_replica_type, replica_types, all_reached, upstream_replicas_ready, all_ready,
  dag_conditions_ready,
}

-- How far a phase is: an unknown pod is behind a pending one, and a failed one as far as a
-- succeeded one.
unfoldable pub stage : PodPhase → ℕ
stage PodPhase.unknown = 0
stage PodPhase.pending = 1
stage PodPhase.unset = 1
stage PodPhase.running = 2
stage PodPhase.succeeded = 3
stage PodPhase.failed = 3

pub phase_comparator-stage :
    (p q : PodPhase) → (is_negative (phase_comparator p q) ≡ false) ↔ (stage q ≤ stage p)
unfolding phase_comparator phase_code stage
phase_comparator-stage p q = ground arith

abbrev pub is_some_of : Option String → String → Bool
is_some_of none t = false
is_some_of (some u) t = str_eq u t

-- The pods that one of the types collects.
unfoldable pub pods_of : List String → String → List Pod → List Pod
pods_of ts t [] = []
pods_of ts t (p ∷ ps) =
    let rest = pods_of ts t ps in
    if is_some_of (collector ts (replica_type_of p)) t then p ∷ rest else rest

abbrev get : String → PodMap → List Pod
get t m = or_empty (lookup t m)

get-insert :
    (t u : String) (ps : List Pod) (m : PodMap)
    → get u (insert t ps m) ≡ (if str_eq t u then ps else get u m)
get-insert t u ps m = ground (arith, lookup-insert t u ps m)

get_add :
    (o : Option String) (p : Pod) (m : PodMap) (t : String)
    → get t (add_pod o p m) ≡ (if is_some_of o t then get t m ++ p ∷ [] else get t m)
get_add none p m t = refl
get_add (some u) p m t = ground (arith, str_eq_iff u t, get-insert u t (get u m ++ p ∷ []) m)

snoc-append : (xs : List Pod) (y : Pod) (ys : List Pod) → (xs ++ y ∷ []) ++ ys ≡ xs ++ y ∷ ys
snoc-append xs y ys = append_assoc xs (y ∷ []) ys

get-collect_pods :
    (ts : List String) (ps : List Pod) (m : PodMap) (t : String)
    → get t (collect_pods ts ps m) ≡ get t m ++ pods_of ts t ps
unfolding collect_pods pods_of
get-collect_pods ts [] m t = sym (append-nil (get t m))
get-collect_pods ts (p ∷ ps) m t =
    let o = collector ts (replica_type_of p) in
    let ih = get-collect_pods ts ps (add_pod o p m) t in
    ground (arith, ih, get_add o p m t, snoc-append (get t m) p (pods_of ts t ps))

-- The map holds, under each type, the pods that the type collects, in their order.
pub get-sort_pods :
    (ts : List String) (ps : List Pod) (t : String)
    → or_empty (lookup t (sort_pods_by_replica_type ps ts)) ≡ pods_of ts t ps
unfolding sort_pods_by_replica_type lookup
get-sort_pods ts ps t = get-collect_pods ts ps [] t

-- A condition is ready: its upstream type is not in the specifications, or it has at least its
-- replicas in pods, and no pod of the type is behind the phase.
pub record IsReady (specs : Specs) (ps : List Pod) (c : DagCondition) : Type 0 where
  pub enough :
      (spec : ReplicaSpec)
      → lookup c.upstream specs ≡ some spec
      → spec.replicas ≤ length (pods_of (replica_types specs) c.upstream ps)
  pub reached :
      (spec : ReplicaSpec)
      → lookup c.upstream specs ≡ some spec
      → (p : Pod) → Memᴰ p (pods_of (replica_types specs) c.upstream ps)
      → stage c.on_phase ≤ stage p.phase

all_reached_of :
    (ps : List Pod) (phase : PodPhase)
    → ((p : Pod) → Memᴰ p ps → stage phase ≤ stage p.phase)
    → all_reached ps phase ≡ true
unfolding all_reached
all_reached_of [] phase h = refl
all_reached_of (p ∷ ps) phase h = ground (
  arith,
  all_reached_of ps phase (λ q m. h q (Memᴰ.tail m)),
  h p (Memᴰ.head refl),
  phase_comparator-stage p.phase phase,
)

of_all_reached :
    (ps : List Pod) (phase : PodPhase)
    → all_reached ps phase ≡ true
    → (p : Pod) → Memᴰ p ps
    → stage phase ≤ stage p.phase
unfolding all_reached
of_all_reached [] phase h p m = elim m [ ]
of_all_reached (q ∷ ps) phase h p (Memᴰ.head e) =
    subst (λ (x : Pod). stage phase ≤ stage x.phase) (sym e)
      (ground (arith, phase_comparator-stage q.phase phase))
of_all_reached (q ∷ ps) phase h p (Memᴰ.tail m) = of_all_reached ps phase (ground arith) p m

module _ (qs : List Pod) (phase : PodPhase) where
  -- The test of one condition, on the specification of the upstream type and on its pods.
  abbrev test : Option ReplicaSpec → Bool
  test none = true
  test (some spec) = if ltb (length qs) spec.replicas then false else all_reached qs phase

  test_of :
      (o : Option ReplicaSpec)
      → ((spec : ReplicaSpec) → o ≡ some spec → spec.replicas ≤ length qs)
      → ((spec : ReplicaSpec) → o ≡ some spec → (p : Pod) → Memᴰ p qs → stage phase ≤ stage p.phase)
      → test o ≡ true
  test_of none h k = refl
  test_of (some spec) h k = ground (arith, h spec refl, all_reached_of qs phase (k spec refl))

  of_test :
      (o : Option ReplicaSpec) (spec : ReplicaSpec)
      → o ≡ some spec
      → test o ≡ true
      → (spec.replicas ≤ length qs) × (all_reached qs phase ≡ true)
  of_test none spec e h = absurd (cc)
  of_test (some spec') spec e h = (ground arith, ground arith)

on_same_pods :
    (phase : PodPhase) (o : Option ReplicaSpec) (qs rs : List Pod)
    → qs ≡ rs
    → (elim o [
      | none ↦ true
      | some spec ↦ if ltb (length qs) spec.replicas then false else all_reached qs phase
    ])
      ≡ test rs phase o
on_same_pods phase none qs rs e = refl
on_same_pods phase (some spec) qs rs e = ap (λ x. test x phase (some spec)) e

module _ (specs : Specs) (ps : List Pod) (c : DagCondition) where
  abbrev there : List Pod
  there = pods_of (replica_types specs) c.upstream ps

  upstream_tests :
      upstream_replicas_ready (sort_pods_by_replica_type ps (replica_types specs)) specs c
      ≡ test there c.on_phase (lookup c.upstream specs)
  unfolding upstream_replicas_ready
  upstream_tests =
      on_same_pods c.on_phase (lookup c.upstream specs) _ there
        (get-sort_pods (replica_types specs) ps c.upstream)

  upstream-IsReady :
      upstream_replicas_ready (sort_pods_by_replica_type ps (replica_types specs)) specs c ≡ true
      → IsReady specs ps c
  upstream-IsReady h = record {
    enough = λ spec e.
        (of_test there c.on_phase (lookup c.upstream specs) spec e (sym upstream_tests ∙ h)).0;
    reached = λ spec e.
        of_all_reached there c.on_phase
          (of_test there c.on_phase (lookup c.upstream specs) spec e (sym upstream_tests ∙ h)).1;
  }

  IsReady-upstream :
      IsReady specs ps c
      → upstream_replicas_ready (sort_pods_by_replica_type ps (replica_types specs)) specs c ≡ true
  IsReady-upstream v =
      upstream_tests ∙ test_of there c.on_phase (lookup c.upstream specs) v.enough v.reached

module _ (specs : Specs) (ps : List Pod) where
  abbrev sorted : PodMap
  sorted = sort_pods_by_replica_type ps (replica_types specs)

  all_ready-IsReady :
      (cs : List DagCondition)
      → all_ready sorted specs cs ≡ true
      → (c : DagCondition) → Memᴰ c cs
      → IsReady specs ps c
  unfolding all_ready
  all_ready-IsReady [] h c m = elim m [ ]
  all_ready-IsReady (d ∷ cs) h c (Memᴰ.head e) =
      subst (IsReady specs ps) (sym e) (upstream-IsReady specs ps d (ground arith))
  all_ready-IsReady (d ∷ cs) h c (Memᴰ.tail m) = all_ready-IsReady cs (ground arith) c m

  IsReady-all_ready :
      (cs : List DagCondition)
      → ((c : DagCondition) → Memᴰ c cs → IsReady specs ps c)
      → all_ready sorted specs cs ≡ true
  unfolding all_ready
  IsReady-all_ready [] h = refl
  IsReady-all_ready (d ∷ cs) h = ground (
    arith,
    IsReady-upstream specs ps d (h d (Memᴰ.head refl)),
    IsReady-all_ready cs (λ c m. h c (Memᴰ.tail m)),
  )

-- The conditions of a replica type are ready exactly when each of them is: its upstream type is not
-- in the specifications, or as many pods as it has replicas are collected for it, none of them
-- behind the phase.
pub dag_conditions_ready_iff :
    (specs : Specs) (ps : List Pod) (cs : List DagCondition)
    → (dag_conditions_ready specs ps cs ≡ true)
      ↔ ((c : DagCondition) → Memᴰ c cs → IsReady specs ps c)
unfolding dag_conditions_ready
dag_conditions_ready_iff specs ps [] = (λ h c m. elim m [ ], λ h. refl)
dag_conditions_ready_iff specs ps (c ∷ cs) =
    (all_ready-IsReady specs ps (c ∷ cs), IsReady-all_ready specs ps (c ∷ cs))
