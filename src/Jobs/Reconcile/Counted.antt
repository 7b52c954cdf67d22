-- ===== src/Jobs/Reconcile/Counted.antt =====
-- What the loop over the replica types makes of the status of the job.
use kubedl.Prelude.{
  String, Bool, true, false, some, List, [], ◌∷◌, ◌++◌, ◌≡◌, refl, sym, ◌∙◌, arith, str_eq,
  str_eq_iff, elem, Distinct, extend, Option-cases, inl, inr, Bool-cases, case_rule, some_rule,
  none_rule,
}
use mathlib.Core.Path.{subst}
use kubedl.Prelude.Map.{lookup}
use kubedl.Prelude.Text.{to_lower}
use kubedl.Api.{JobStatus, ReplicaSpec, ReplicaStatus}
use kubedl.Kube.{Pod}
use kubedl.Pods.{
  PodCall, Round, Ending, finished_round, refused_round, get_pod_slices,
  filter_pods_for_replica_type,
}
use kubedl.Pods.Tally.{IsTally, Counts, OnFinish, at_finish, counted, reconcile_pods-Counts}
use kubedl.Jobs.Reconcile.{
  Setting, Pass, passed, frozen, failed_pass, role_of, waits_for_ai_master, waits_for_upstream,
  reconcile_types,
}

-- The pods of a type that count for its status.
abbrev pub counted_pods : Setting → String → ReplicaSpec → List Pod
counted_pods c t spec =
    counted spec.replicas 0
      (get_pod_slices (filter_pods_for_replica_type c.pods (to_lower t)) spec.replicas)

-- The status of a type is the tally of its pods.
pub record IsCounted (c : Setting) (t : String) (spec : ReplicaSpec) (s : JobStatus) : Type 0 where
  pub st : ReplicaStatus
  pub found : lookup t s.replica_statuses ≡ some st
  pub tally : IsTally (counted_pods c t spec) st

-- What the loop over some types makes of a status.
pub record Reconciles (c : Setting) (ts : List String) (s s' : JobStatus) : Type 0 where
  pub conditions : s'.conditions ≡ s.conditions
  pub others :
      (u : String) → elem u ts ≡ false → lookup u s'.replica_statuses ≡ lookup u s.replica_statuses
  pub counts :
      (u : String) (spec : ReplicaSpec)
      → elem u ts ≡ true
      → lookup u c.specs ≡ some spec
      → waits_for_upstream c spec ≡ false
      → IsCounted c u spec s'

-- A property of the status, where the loop gets through all types.
pub data OnPass (P : JobStatus → Type 0) : Pass → Type 0 where
  at_pass :
      {s : JobStatus} {restart : Bool} {calls : List PodCall}
      → P s
      → OnPass P (passed s restart calls)
  at_freeze : OnPass P frozen
  at_failure : OnPass P failed_pass

one_spec : {a b : ReplicaSpec} → some a ≡ some b → a ≡ b
one_spec h = cc

module _ (c : Setting) (t : String) (ts : List String) (s : JobStatus) where
  -- A type that is skipped: it has no specification, or it waits for its upstream types.
  skip_type :
      (s' : JobStatus)
      → ((spec : ReplicaSpec) → lookup t c.specs ≡ some spec → waits_for_upstream c spec ≡ true)
      → Reconciles c ts s s'
      → Reconciles c (t ∷ ts) s s'
  unfolding elem
  skip_type s' k v = record {
    conditions = v.conditions;
    others = λ u h. v.others u (ground arith);
    counts = λ u spec h e w. elim (Bool-cases (str_eq t u)) [
      | inl same ↦ absurd (
          ground (
            arith,
            k spec,
            w,
            subst (λ x. lookup x c.specs ≡ some spec) (sym ((str_eq_iff t u).0 same)) e,
          ))
      | inr n ↦ v.counts u spec (ground arith) e w
    ];
  }

  -- A type that is reconciled.
  first_type :
      (spec : ReplicaSpec) (r : Round) (s' : JobStatus)
      → lookup t c.specs ≡ some spec
      → elem t ts ≡ false
      → Counts t s (counted_pods c t spec) r
      → Reconciles c ts r.status s'
      → Reconciles c (t ∷ ts) s s'
  unfolding elem
  first_type spec r s' e d k v = record {
    conditions = v.conditions ∙ k.conditions;
    others = λ u h. v.others u (ground arith) ∙ k.others u (ground arith);
    counts = λ u spec' h f w. elim (Bool-cases (str_eq t u)) [
      | inl same ↦
          let tu = (str_eq_iff t u).0 same in
          let g = subst (λ x. lookup x c.specs ≡ some spec') (sym tu) f in
          subst (λ x. IsCounted c x spec' s') tu
            (subst (λ x. IsCounted c t x s') (one_spec (sym e ∙ g))
              (record { st = k.st; found = v.others t d ∙ k.found; tally = k.tally }))
      | inr n ↦ v.counts u spec' (ground arith) f w
    ];
  }

map_pass :
    (P Q : JobStatus → Type 0) (x : Pass) → ((s : JobStatus) → P s → Q s) → OnPass P x → OnPass Q x
map_pass P Q (passed s restart calls) f (at_pass p) = at_pass (f s p)
map_pass P Q frozen f p = at_freeze
map_pass P Q failed_pass f p = at_failure

module _ (c : Setting) where
  after_pods :
      (t : String) (ts : List String) (calls : List PodCall) (P : Round → Type 0)
      (Q : JobStatus → Type 0) (e : Ending)
      → OnFinish P e
      → ((r : Round) → P r → OnPass Q (reconcile_types c ts r.status r.restart (calls ++ r.calls)))
      → OnPass Q (elim e [
        | refused_round r ↦ failed_pass
        | finished_round r ↦ elim (c.services t) [
          | true ↦ reconcile_types c ts r.status r.restart (calls ++ r.calls)
          | false ↦ failed_pass
        ]
      ])
  after_pods t ts calls P Q (refused_round r) p k = at_failure
  after_pods t ts calls P Q (finished_round r) (at_finish p) k =
      case_rule (OnPass Q) (c.services t) _ _ (λ _. k r p) (λ _. at_failure)

  types-Reconciles :
      (ts : List String) (s : JobStatus) (restart : Bool) (calls : List PodCall)
      → Distinct ts
      → OnPass (Reconciles c ts s) (reconcile_types c ts s restart calls)
  unfolding reconcile_types elem
  types-Reconciles [] s restart calls d =
      at_pass
        (record { conditions = refl; others = λ u h. refl; counts = λ u spec h e w. absurd (cc) })
  types-Reconciles (t ∷ ts) s restart calls (extend n d) =
      let Q = Reconciles c (t ∷ ts) s in
      let rest = types-Reconciles ts s restart calls d in
      elim (Option-cases (lookup t c.specs)) [
        | inl e ↦ none_rule (OnPass Q) (lookup t c.specs) _ _ e (
            map_pass (Reconciles c ts s) Q _
              (λ s' v. skip_type c t ts s s' (λ spec f. absurd (cc)) v) rest)
        | inr (spec, e) ↦ some_rule (OnPass Q) (lookup t c.specs) spec _ _ e (
            case_rule (OnPass Q) (waits_for_ai_master c t) _ _ (λ _. at_freeze)
              (λ _.
                case_rule (OnPass Q) (waits_for_upstream c spec) _ _
                  (λ w.
                    map_pass (Reconciles c ts s) Q _
                      (λ s' v.
                        skip_type c t ts s s'
                          (λ spec' f.
                            subst (λ x. waits_for_upstream c x ≡ true) (one_spec (sym e ∙ f)) w)
                          v)
                      rest)
                  (λ w.
                    after_pods t ts calls (Counts t s (counted_pods c t spec)) Q _
                      (reconcile_pods-Counts (c.creations t) c.monitored (c.reaction t)
                        (role_of c t spec) c.pods s restart)
                      (λ r k.
                        map_pass (Reconciles c ts r.status) Q _
                          (λ s' v. first_type c t ts s spec r s' e n k v)
                          (types-Reconciles ts r.status r.restart (calls ++ r.calls) d)))))
      ]

-- Where the loop over the replica types of a job gets through all of them, the conditions are as
-- before, and the status of each type, unless it has no specification or still waits for its
-- upstream types, is the tally of its pods; the types of the order are all different.
pub reconcile_types-Reconciles :
    (c : Setting) (s : JobStatus) (restart : Bool)
    → Distinct c.orders
    → OnPass (Reconciles c c.orders s) (reconcile_types c c.orders s restart [])
reconcile_types-Reconciles c s restart d = types-Reconciles c c.orders s restart [] d
