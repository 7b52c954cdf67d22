-- ===== src/Dag/Progress.antt =====
-- Conditions that are ready stay ready as long as the pods go forward.
use kubedl.Prelude.{
  ℕ, suc, ◌≤◌, String, Bool, true, false, List, [], ◌∷◌, ◌≡◌, refl, arith, length, ap, sym,
  if◌then◌else◌,
}
use mathlib.Core.Path.{subst}
use mathlib.Core.List.{Memᴰ}
use kubedl.Api.{DagCondition}
use kubedl.Kube.{Pod}
use kubedl.Rollup.{Specs}
use kubedl.Dag.{dag_conditions_ready, replica_types, collector, replica_type_of}
use kubedl.Dag.Readiness.{stage, pods_of, is_some_of, IsReady, dag_conditions_ready_iff}

-- The same pods, with the same labels, in phases that are not behind.
pub data Forward : List Pod → List Pod → Type 0 where
  none_left : Forward [] []
  moves :
      {p q : Pod} {ps qs : List Pod}
      → p.labels ≡ q.labels
      → stage p.phase ≤ stage q.phase
      → Forward ps qs
      → Forward (p ∷ ps) (q ∷ qs)

length-Forward : (ps qs : List Pod) → Forward ps qs → length ps ≡ length qs
length-Forward [] [] none_left = refl
length-Forward [] (q ∷ qs) f = elim f [ ]
length-Forward (p ∷ ps) [] f = elim f [ ]
length-Forward (p ∷ ps) (q ∷ qs) (moves e l f) = ap (λ n. suc n) (length-Forward ps qs f)

-- A pod of the later list comes from one of the earlier.
reached-Forward :
    (k : ℕ) (ps qs : List Pod)
    → Forward ps qs
    → ((p : Pod) → Memᴰ p ps → k ≤ stage p.phase)
    → (q : Pod) → Memᴰ q qs
    → k ≤ stage q.phase
reached-Forward k [] [] none_left h q m = elim m [ ]
reached-Forward k [] (r ∷ qs) f h q m = elim f [ ]
reached-Forward k (p ∷ ps) [] f h q m = elim f [ ]
reached-Forward k (p ∷ ps) (r ∷ qs) (moves e l f) h q (Memᴰ.head i) =
    subst (λ (x : Pod). k ≤ stage x.phase) (sym i) (omega (arith, h p (Memᴰ.head refl), l))
reached-Forward k (p ∷ ps) (r ∷ qs) (moves e l f) h q (Memᴰ.tail m) =
    reached-Forward k ps qs f (λ x n. h x (Memᴰ.tail n)) q m

Forward-if :
    (b : Bool) (p q : Pod) (ps qs : List Pod)
    → p.labels ≡ q.labels
    → stage p.phase ≤ stage q.phase
    → Forward ps qs
    → Forward (if b then p ∷ ps else ps) (if b then q ∷ qs else qs)
Forward-if true p q ps qs e l f = moves e l f
Forward-if false p q ps qs e l f = f

type_of_same : (p q : Pod) → p.labels ≡ q.labels → replica_type_of p ≡ replica_type_of q
type_of_same p q e = rw e refl

pods_of-Forward :
    (ts : List String) (t : String) (ps qs : List Pod)
    → Forward ps qs
    → Forward (pods_of ts t ps) (pods_of ts t qs)
unfolding pods_of
pods_of-Forward ts t [] [] none_left = none_left
pods_of-Forward ts t [] (q ∷ qs) f = elim f [ ]
pods_of-Forward ts t (p ∷ ps) [] f = elim f [ ]
pods_of-Forward ts t (p ∷ ps) (q ∷ qs) (moves e l f) =
    subst
      (λ (x : String).
        Forward (pods_of ts t (p ∷ ps))
          (if is_some_of (collector ts x) t then q ∷ pods_of ts t qs else pods_of ts t qs))
      (type_of_same p q e)
      (Forward-if (is_some_of (collector ts (replica_type_of p)) t) p q (pods_of ts t ps)
        (pods_of ts t qs) e l (pods_of-Forward ts t ps qs f))

IsReady-Forward :
    (specs : Specs) (c : DagCondition) (ps qs : List Pod)
    → Forward ps qs
    → IsReady specs ps c
    → IsReady specs qs c
IsReady-Forward specs c ps qs f v =
    let g = pods_of-Forward (replica_types specs) c.upstream ps qs f in
    record {
      enough = λ spec e. omega (arith, v.enough spec e, length-Forward _ _ g);
      reached = λ spec e. reached-Forward (stage c.on_phase) _ _ g (v.reached spec e);
    }

-- A replica type that may start still may when the pods have gone forward: the same pods with the
-- same labels, none in a phase behind its earlier one.
pub dag_conditions_ready-Forward :
    (specs : Specs) (cs : List DagCondition) (ps qs : List Pod)
    → Forward ps qs
    → dag_conditions_ready specs ps cs ≡ true
    → dag_conditions_ready specs qs cs ≡ true
dag_conditions_ready-Forward specs cs ps qs f h =
    (dag_conditions_ready_iff specs qs cs).1
      (λ c m. IsReady-Forward specs c ps qs f ((dag_conditions_ready_iff specs ps cs).0 h c m))
