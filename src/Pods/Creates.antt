-- ===== src/Pods/Creates.antt =====
-- Which pods are created for a type.
use kubedl.Prelude.{
  ℕ, zero, suc, ◌+◌, ◌<◌, Bool, true, false, List, [], ◌∷◌, ◌++◌, ◌≡◌, ◌↔◌, refl, sym, ap, ◌∙◌,
  arith, leb, length, if◌then◌else◌, Bool-cases, inl, inr, if_keeps, ◌⊎◌, ◌&&◌, ltb,
}
use mathlib.Core.Path.{subst}
use mathlib.Core.List.{Memᴰ, append_assoc, append-nil}
use kubedl.Prelude.Text.{to_lower}
use kubedl.Api.{JobStatus}
use kubedl.Kube.{Pod}
use kubedl.Pods.{
  Slices, PodCall, create_pod, delete_pod, annotate_failover, deletions, Round, Role, Ending,
  finished_round, refused_round, Creation, is_created, reconcile_one_pod, reconcile_slices,
  do_fail_over, monitor, end_round, begin, reconcile_pods, get_pod_slices,
  filter_pods_for_replica_type,
}
use kubedl.Pods.Slots.{slot, pods_at, get_pod_slices-pods_at}

-- The indices below the replicas whose slices are empty.
unfoldable missing : ℕ → ℕ → Slices → List ℕ
missing n k [] = []
missing n k ([] ∷ xs) = let rest = missing n (k + 1) xs in if leb n k then rest else k ∷ rest
missing n k ((p ∷ ps) ∷ xs) = missing n (k + 1) xs

-- The indices of the pods that calls create.
unfoldable pub creates : List PodCall → List ℕ
creates [] = []
creates (create_pod i ∷ cs) = i ∷ creates cs
creates (delete_pod x ∷ cs) = creates cs
creates (annotate_failover ∷ cs) = creates cs

creates-append : (cs ds : List PodCall) → creates (cs ++ ds) ≡ creates cs ++ creates ds
unfolding creates
creates-append [] ds = refl
creates-append (create_pod i ∷ cs) ds = ap (λ (xs : List ℕ). i ∷ xs) (creates-append cs ds)
creates-append (delete_pod x ∷ cs) ds = creates-append cs ds
creates-append (annotate_failover ∷ cs) ds = creates-append cs ds

creates-deletions : (ps : List Pod) → creates (deletions ps) ≡ []
unfolding creates
creates-deletions [] = refl
creates-deletions (p ∷ ps) = creates-deletions ps

missing_of :
    (n k j : ℕ) (xs : Slices)
    → j < length xs
    → k + j < n
    → slot j xs ≡ []
    → Memᴰ (k + j) (missing n k xs)
unfolding missing slot
missing_of n k j [] h l e = absurd (omega arith)
missing_of n k zero ([] ∷ xs) h l e = elim (Bool-cases (leb n k)) [
  | inl b ↦ absurd (ground arith)
  | inr b ↦ rw b (Memᴰ.head (omega arith))
]
missing_of n k (suc j) ([] ∷ xs) h l e =
    let there : Memᴰ (k + suc j) (missing n (k + 1) xs) =
      subst (λ i. Memᴰ i (missing n (k + 1) xs)) (shift k j)
        (missing_of n (k + 1) j xs (omega arith) (omega arith) e) in
    if_keeps (λ is. Memᴰ (k + suc j) is) (leb n k) there (Memᴰ.tail there)
  where
    shift : (k j : ℕ) → k + 1 + j ≡ k + suc j
    shift k j = omega arith
missing_of n k zero ((p ∷ ps) ∷ xs) h l e = absurd (cc)
missing_of n k (suc j) ((p ∷ ps) ∷ xs) h l e =
    subst (λ i. Memᴰ i (missing n (k + 1) xs)) (shift k j)
      (missing_of n (k + 1) j xs (omega arith) (omega arith) e)
  where
    shift : (k j : ℕ) → k + 1 + j ≡ k + suc j
    shift k j = omega arith

record IsMissing (n k i : ℕ) (xs : Slices) : Type 0 where
  offset : ℕ
  at : i ≡ k + offset
  below : i < n
  empty : slot offset xs ≡ []

first_or_rest :
    (b : Bool) (k i : ℕ) (rest : List ℕ)
    → Memᴰ i (if b then rest else k ∷ rest)
    → ((b ≡ false) × (i ≡ k)) ⊎ Memᴰ i rest
first_or_rest true k i rest m = inr m
first_or_rest false k i rest (Memᴰ.head e) = inl (refl, e)
first_or_rest false k i rest (Memᴰ.tail m) = inr m

of_missing : (n k i : ℕ) (xs : Slices) → Memᴰ i (missing n k xs) → IsMissing n k i xs
unfolding missing slot
of_missing n k i [] m = elim m [ ]
of_missing n k i ([] ∷ xs) m = elim (first_or_rest (leb n k) k i (missing n (k + 1) xs) m) [
  | inl (b, e) ↦ record { offset = 0; at = omega (arith, e); below = ground arith; empty = refl }
  | inr m' ↦
      let v = of_missing n (k + 1) i xs m' in
      record { offset = suc v.offset; at = omega (arith, v.at); below = v.below; empty = v.empty }
]
of_missing n k i ((p ∷ ps) ∷ xs) m =
    let v = of_missing n (k + 1) i xs m in
    record { offset = suc v.offset; at = omega (arith, v.at); below = v.below; empty = v.empty }

-- The reconciling of the slices ends normally, having created `is`.
data Creates (is : List ℕ) : Ending → Type 0 where
  in_all : {r : Round} → creates r.calls ≡ is → Creates is (finished_round r)

module _ (answers : ℕ → Creation) (accepted : (i : ℕ) → is_created (answers i) ≡ true)
    (role : Role) where
  creation :
      (b c : Bool) (x y : Ending) (r : Round) (is js : List ℕ)
      → c ≡ true
      → Creates is x
      → Creates js y
      → Creates
          (if b then is else js)
          (elim b [ true ↦ x | false ↦ elim c [ true ↦ y | false ↦ refused_round r ] ])
  creation true c x y r is js e p q = p
  creation false true x y r is js e p q = q
  creation false false x y r is js e p q = absurd (cc)

  creates-one_pod :
      (index : ℕ) (p : Pod) (r : Round)
      → creates (reconcile_one_pod role index p r).calls ≡ creates r.calls
  unfolding reconcile_one_pod creates
  creates-one_pod index p r =
      if_keeps (λ (x : Round). creates x.calls ≡ creates r.calls) (leb role.spec.replicas index)
        (creates-append r.calls (delete_pod p.name ∷ []) ∙ append-nil (creates r.calls)) refl

  either :
      (b : Bool) (is rest : List ℕ) (k : ℕ)
      → (if b then is ++ rest else (is ++ k ∷ []) ++ rest) ≡ is ++ (if b then rest else k ∷ rest)
  either true is rest k = refl
  either false is rest k = append_assoc is (k ∷ []) rest

  slices-Creates :
      (index : ℕ) (xs : Slices) (r : Round)
      → Creates
          (creates r.calls ++ missing role.spec.replicas index xs)
          (reconcile_slices answers role index xs r)
  unfolding reconcile_slices missing creates
  slices-Creates index [] r = in_all (sym (append-nil (creates r.calls)))
  slices-Creates index ([] ∷ xs) r =
      let r' : Round = record r { calls = r.calls ++ create_pod index ∷ [] } in
      let rest = missing role.spec.replicas (index + 1) xs in
      subst (λ is. Creates is (reconcile_slices answers role index ([] ∷ xs) r))
        (either (leb role.spec.replicas index) (creates r.calls) rest index)
        (creation (leb role.spec.replicas index) _ _ _ _ (creates r.calls ++ rest) _
          (accepted index) (slices-Creates (index + 1) xs r)
          (subst (λ is. Creates (is ++ rest) (reconcile_slices answers role (index + 1) xs r'))
            (creates-append r.calls (create_pod index ∷ [])) (slices-Creates (index + 1) xs r')))
  slices-Creates index ((p ∷ []) ∷ xs) r =
      subst
        (λ is.
          Creates (is ++ missing role.spec.replicas (index + 1) xs)
            (reconcile_slices answers role (index + 1) xs (reconcile_one_pod role index p r)))
        (creates-one_pod index p r)
        (slices-Creates (index + 1) xs (reconcile_one_pod role index p r))
  slices-Creates index ((p ∷ q ∷ ps) ∷ xs) r = slices-Creates (index + 1) xs r

  no_creations :
      (cs : List PodCall) (ps : List Pod)
      → creates (cs ++ deletions ps ++ annotate_failover ∷ []) ≡ creates cs
  unfolding creates
  no_creations cs ps =
      creates-append (cs ++ deletions ps) (annotate_failover ∷ [])
      ∙ (append-nil (creates (cs ++ deletions ps))
          ∙ (creates-append cs (deletions ps)
              ∙ (ap (λ js. creates cs ++ js) (creates-deletions ps) ∙ append-nil (creates cs))))

  creates-do_fail_over : (r : Round) → creates (do_fail_over r).calls ≡ creates r.calls
  creates-do_fail_over r =
      let cut : Round = record r {
        calls = r.calls ++ deletions r.fail_over ++ annotate_failover ∷ [];
      } in
      if_keeps (λ (x : Round). creates x.calls ≡ creates r.calls)
        (r.restart && ltb 0 (length r.fail_over)) {x = cut} {y = r}
        (no_creations r.calls r.fail_over) refl

  end-Creates :
      (is : List ℕ) (e : Ending) → Creates is e → Creates is (end_round false role.rtype [] e)
  unfolding end_round monitor
  end-Creates is (finished_round r) (in_all h) = in_all (creates-do_fail_over r ∙ h)
  end-Creates is (refused_round r) v = elim v [ ]

-- The pods of the type that carry an index.
abbrev pub pods_with : Role → List Pod → ℕ → List Pod
pods_with role ps i = pods_at i (filter_pods_for_replica_type ps (to_lower role.rtype))

-- A round ends normally, and has created exactly the indices below the replicas with no pod.
pub data FillsGaps (role : Role) (ps : List Pod) : Ending → Type 0 where
  fills :
      {r : Round}
      → ((i : ℕ)
          → Memᴰ i (creates r.calls) ↔ ((i < role.spec.replicas) × (pods_with role ps i ≡ [])))
      → FillsGaps role ps (finished_round r)

fills_by :
    (role : Role) (ps : List Pod) (is : List ℕ) (e : Ending)
    → Creates is e
    → ((i : ℕ) → Memᴰ i is ↔ ((i < role.spec.replicas) × (pods_with role ps i ≡ [])))
    → FillsGaps role ps e
fills_by role ps is (finished_round r) (in_all h) k = fills (λ i.
    subst (λ js. Memᴰ i js ↔ ((i < role.spec.replicas) × (pods_with role ps i ≡ []))) (sym h) (k i))
fills_by role ps is (refused_round r) v k = elim v [ ]

-- Where the API server accepts every creation and no AIMaster monitors errors, reconciling the pods
-- of a type ends normally, and it creates a pod for exactly the indices below the replicas for
-- which the type has no pod yet.
pub reconcile_pods-FillsGaps :
    (answers : ℕ → Creation) (role : Role) (ps : List Pod) (s : JobStatus) (restart : Bool)
    → ((i : ℕ) → is_created (answers i) ≡ true)
    → FillsGaps role ps (reconcile_pods answers false [] role ps s restart)
unfolding reconcile_pods creates
reconcile_pods-FillsGaps answers role ps s restart accepted =
    let n = role.spec.replicas in
    let qs = filter_pods_for_replica_type ps (to_lower role.rtype) in
    let (long, slots) = get_pod_slices-pods_at qs n in
    fills_by role ps _ _
      (end-Creates answers accepted role _ _
        (slices-Creates answers accepted role 0 (get_pod_slices qs n) (begin role.rtype s restart)))
      (λ i. (
        λ m.
            let v = of_missing n 0 i (get_pod_slices qs n) m in
            (
              v.below,
              sym (slots i v.below)
                  ∙ (ap (λ j. slot j (get_pod_slices qs n)) (omega (arith, v.at)) ∙ v.empty),
            ),
        λ h.
            subst (λ j. Memᴰ j (missing n 0 (get_pod_slices qs n))) (omega arith)
              (missing_of n 0 i (get_pod_slices qs n) (omega (arith, long, h.0))
                (omega (arith, h.0)) (slots i h.0 ∙ h.1)),
      ))
