-- ===== src/Elastic/Scale/Order.antt =====
-- The order of a scaling, and when it is finished.
use kubedl.Prelude.{
  ℕ, suc, ◌+◌, ◌-◌, ◌≤◌, Bool, true, false, not, ◌&&◌, ◌||◌, List, [], ◌∷◌, ◌≡◌, ap, arith, ◌==◌,
  ltb, leb, str_eq, str_eq_iff, length, if_rule, Bool-cases, inl, inr,
}
use kubedl.Prelude.Int.{sub_ℕ, is_zero}
use kubedl.Elastic.Scale.{
  ElasticPod, ElasticService, filter_master_service, refresh_master, ScaleJob, filter_stale_pods,
  of_type, restart_stale_pod, restart_masters, restart_workers, Scaled, finish_scale, scale_stale,
  scale,
}

-- The restart of a stale pod counts as completed.
abbrev pub Completed : ScaleJob → ℕ → ElasticPod → Type 0
Completed j size p = (restart_stale_pod j size p).completed ≡ true

abbrev pub AllRefreshed : ScaleJob → ℕ → List ElasticPod → Type 0
AllRefreshed j size [] = Unit {0}
AllRefreshed j size (p ∷ ps) = Completed j size p × AllRefreshed j size ps

masters-AllRefreshed :
    (j : ScaleJob) (size : ℕ) (ps : List ElasticPod)
    → (restart_masters j size ps).completed ≡ true
    → AllRefreshed j size ps
unfolding restart_masters
masters-AllRefreshed j size [] h = tt
masters-AllRefreshed j size (p ∷ ps) h =
    (ground arith, masters-AllRefreshed j size ps (ground arith))

restart_workers-le :
    (j : ScaleJob) (size : ℕ) (ps : List ElasticPod) → restart_workers j size ps ≤ length ps
unfolding restart_workers
restart_workers-le j size [] = omega arith
restart_workers-le j size (p ∷ ps) = ground (arith, restart_workers-le j size ps)

workers-AllRefreshed :
    (j : ScaleJob) (size : ℕ) (ps : List ElasticPod)
    → restart_workers j size ps ≡ length ps
    → AllRefreshed j size ps
unfolding restart_workers
workers-AllRefreshed j size [] h = tt
workers-AllRefreshed j size (p ∷ ps) h = (
  ground (arith, restart_workers-le j size ps),
  workers-AllRefreshed j size ps (ground (arith, restart_workers-le j size ps)),
)

split_le :
    (ps : List ElasticPod) → length (of_type "master" ps) + length (of_type "worker" ps) ≤ length ps
unfolding of_type
split_le [] = omega arith
split_le (p ∷ ps) = elim (Bool-cases (str_eq p.replica_type "master")) [
  | inl e ↦
      let f : str_eq p.replica_type "worker" ≡ false =
        ap (λ t. str_eq t "worker") ((str_eq_iff p.replica_type "master").0 e) in
      rw (e, f) (omega (arith, split_le ps))
  | inr e ↦ rw (e) (elim (Bool-cases (str_eq p.replica_type "worker")) [
    | inl f ↦ rw (f) (omega (arith, split_le ps))
    | inr f ↦ rw (f) (omega (arith, split_le ps))
  ])
]

split-AllRefreshed :
    (j : ScaleJob) (size : ℕ) (ps : List ElasticPod)
    → AllRefreshed j size (of_type "master" ps)
    → AllRefreshed j size (of_type "worker" ps)
    → length (of_type "master" ps) + length (of_type "worker" ps) ≡ length ps
    → AllRefreshed j size ps
unfolding of_type
split-AllRefreshed j size [] m w h = tt
split-AllRefreshed j size (p ∷ ps) m w h = elim (Bool-cases (str_eq p.replica_type "master")) [
  | inl e ↦
      let f : str_eq p.replica_type "worker" ≡ false =
        ap (λ t. str_eq t "worker") ((str_eq_iff p.replica_type "master").0 e) in
      let n : Completed j size p × AllRefreshed j size (of_type "master" ps) = rw (e) at m in
      let k : suc (length (of_type "master" ps)) + length (of_type "worker" ps) ≡ suc (length ps) =
        rw (e, f) at h in
      (n.0, split-AllRefreshed j size ps n.1 (rw (f) at w) (omega (arith, k)))
  | inr e ↦ elim (Bool-cases (str_eq p.replica_type "worker")) [
    | inl f ↦
        let n : Completed j size p × AllRefreshed j size (of_type "worker" ps) = rw (f) at w in
        let k : length (of_type "master" ps) + suc (length (of_type "worker" ps))
            ≡ suc (length ps) =
          rw (e, f) at h in
        (n.0, split-AllRefreshed j size ps (rw (e) at m) n.1 (omega (arith, k)))
    | inr f ↦
        let k : length (of_type "master" ps) + length (of_type "worker" ps) ≡ suc (length ps) =
          rw (e, f) at h in
        absurd (omega (arith, k, split_le ps))
  ]
]

sub_ℕ-is_zero : (a b : ℕ) → is_zero (sub_ℕ a b) ≡ true → a ≡ b
sub_ℕ-is_zero a b h = elim (Bool-cases (leb b a)) [
  | inl e ↦ let k : (a - b == 0) ≡ true = rw (e) at h in ground (arith, k)
  | inr e ↦ absurd (let k : false ≡ true = rw (e) at h in cc)
]

module _ (patches : Bool) (j : ScaleJob) (size : ℕ) where
  abbrev Ordered : List ElasticPod → Scaled → Type 0
  Ordered stale r = ltb 0 (length r.touched) ≡ true → AllRefreshed j size (of_type "master" stale)

  abbrev Ends : List ElasticPod → Scaled → Type 0
  Ends stale r = r.is_finished ≡ true → AllRefreshed j size stale

  stale-Ordered : (stale : List ElasticPod) → Ordered stale (scale_stale patches j size stale)
  unfolding scale_stale
  stale-Ordered stale =
      let masters = of_type "master" stale in
      if_rule (Ordered stale) (restart_masters j size masters).error (λ _ f. absurd cc)
        (λ _.
          if_rule (Ordered stale) (not (restart_masters j size masters).completed)
            (λ _ f. absurd cc) (λ c _. masters-AllRefreshed j size masters (ground arith)))

  count_ends :
      (stale : List ElasticPod)
      → AllRefreshed j size (of_type "master" stale)
      → (length stale == 0
          || is_zero (
              sub_ℕ (length stale) (
                length (of_type "master" stale) + restart_workers j size (of_type "worker" stale))))
        ≡ true
      → AllRefreshed j size stale
  count_ends stale m h =
      let le = split_le stale in
      let bound = restart_workers-le j size (of_type "worker" stale) in
      let all : length stale
          ≡ length (of_type "master" stale) + restart_workers j size (of_type "worker" stale) =
        elim (Bool-cases (length stale == 0)) [
          | inl z ↦ ground (arith, z, le, bound)
          | inr z ↦
              sub_ℕ-is_zero (length stale)
                (length (of_type "master" stale) + restart_workers j size (of_type "worker" stale))
                (rw (z) at h)
        ] in
      split-AllRefreshed j size stale m
        (workers-AllRefreshed j size (of_type "worker" stale) (omega (arith, all, le, bound)))
        (omega (arith, all, le, bound))

  stale-Ends : (stale : List ElasticPod) → Ends stale (scale_stale patches j size stale)
  unfolding scale_stale finish_scale
  stale-Ends stale =
      let masters = of_type "master" stale in
      if_rule (Ends stale) (restart_masters j size masters).error (λ _ f. absurd cc)
        (λ _.
          if_rule (Ends stale) (not (restart_masters j size masters).completed) (λ _ f. absurd cc)
            (λ c.
              if_rule (Ends stale)
                (length stale == 0
                  || is_zero (
                      sub_ℕ (length stale)
                        (length masters + restart_workers j size (of_type "worker" stale))))
                (λ z _. count_ends stale (masters-AllRefreshed j size masters (ground arith)) z)
                (λ _ f. absurd cc)))

pub scale_ordered :
    (services : List ElasticService) (patches : Bool) (j : ScaleJob) (size : ℕ)
    (active : List ElasticPod)
    → ltb 0 (length (scale services patches j size active).touched) ≡ true
    → AllRefreshed j size (of_type "master" (filter_stale_pods j.generation active))
unfolding scale
scale_ordered services patches j size active =
    let stale = filter_stale_pods j.generation active in
    if_rule (Ordered patches j size stale)
      (not (refresh_master j.generation (filter_master_service services))) (λ _ f. absurd cc)
      (λ _.
        if_rule (Ordered patches j size stale) (not j.ready_to_start && not j.immediately_start)
          (λ _ f. absurd cc)
          (λ _.
            if_rule (Ordered patches j size stale) (not j.is_inflight && not patches)
              (λ _ f. absurd cc) (λ _. stale-Ordered patches j size stale)))

pub scale_ends :
    (services : List ElasticService) (patches : Bool) (j : ScaleJob) (size : ℕ)
    (active : List ElasticPod)
    → (scale services patches j size active).is_finished ≡ true
    → AllRefreshed j size (filter_stale_pods j.generation active)
unfolding scale
scale_ends services patches j size active =
    let stale = filter_stale_pods j.generation active in
    if_rule (Ends patches j size stale)
      (not (refresh_master j.generation (filter_master_service services))) (λ _ f. absurd cc)
      (λ _.
        if_rule (Ends patches j size stale) (not j.ready_to_start && not j.immediately_start)
          (λ _ f. absurd cc)
          (λ _.
            if_rule (Ends patches j size stale) (not j.is_inflight && not patches)
              (λ _ f. absurd cc) (λ _. stale-Ends patches j size stale)))
