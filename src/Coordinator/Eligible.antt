-- ===== src/Coordinator/Eligible.antt =====
-- Which queue units may be selected, and what they score: a description of what the filters and the
-- score plugins answer together.
use kubedl.Prelude.{
  Bool, true, ◌&&◌, Option, none, some, List, [], ◌∷◌, ◌≡◌, refl, sym, ap, arith, is_some,
  Option-cases, inl, inr, ◌⊎◌,
}
use mathlib.Core.Path.{subst}
use mathlib.Core.List.{Memᴰ}
use kubedl.Prelude.Int.{ℤ, pos, add_ℤ}
use kubedl.Coordinator.{
  QueueUnit, Code, success, plugin_error, unschedulable, wait, skip, passes, all_pass,
  is_queue_unit_acceptable, prioritize_queue_unit,
}
use kubedl.Coordinator.Schedule.{Plugins}

-- The answers of a plugin by which a unit passes.
abbrev pub Passes : Code → Type 0
Passes c = (c ≡ success) ⊎ (c ≡ skip)

-- Every plugin of the list lets the unit pass.
abbrev pub AllPass : List (QueueUnit → Code) → QueueUnit → Type 0
AllPass fs u = (f : QueueUnit → Code) → Memᴰ f fs → Passes (f u)

-- A unit that has an owner and that all filters accept, and all prefilters too, which are not asked
-- where there is no filter.
pub record IsEligible (ps : Plugins) (u : QueueUnit) : Type 0 where
  pub owned : is_some u.owner ≡ true
  pub accepted : AllPass ps.filters u
  pub preaccepted : (ps.filters ≡ []) ⊎ AllPass ps.prefilters u

-- The sum of what the score plugins answer, where one that fails counts nothing.
abbrev pub sum_answers : List (QueueUnit → Option ℤ) → QueueUnit → ℤ
sum_answers [] u = pos 0
sum_answers (f ∷ fs) u = add_ℤ (elim (f u) [ none ↦ pos 0 | some n ↦ n ]) (sum_answers fs u)

abbrev pub score_of : Plugins → QueueUnit → ℤ
score_of ps u = sum_answers ps.scores u

-- The test of the loop.
abbrev pub eligible : Plugins → QueueUnit → Bool
eligible ps u = is_some u.owner && is_queue_unit_acceptable ps.prefilters ps.filters u

passes-Passes : (c : Code) → passes c ≡ true → Passes c
passes-Passes success h = inl refl
passes-Passes skip h = inr refl
passes-Passes plugin_error h = absurd (ground (arith, h))
passes-Passes unschedulable h = absurd (ground (arith, h))
passes-Passes wait h = absurd (ground (arith, h))

of_Passes : (c : Code) → Passes c → passes c ≡ true
of_Passes c (inl e) = ap passes e
of_Passes c (inr e) = ap passes e

all_pass-AllPass :
    (fs : List (QueueUnit → Code)) (u : QueueUnit) → all_pass fs u ≡ true → AllPass fs u
unfolding all_pass
all_pass-AllPass [] u h g m = elim m [ ]
all_pass-AllPass (f ∷ fs) u h g (Memᴰ.head e) =
    subst (λ (k : QueueUnit → Code). Passes (k u)) (sym e) (passes-Passes (f u) (ground arith))
all_pass-AllPass (f ∷ fs) u h g (Memᴰ.tail m) = all_pass-AllPass fs u (ground arith) g m

of_AllPass : (fs : List (QueueUnit → Code)) (u : QueueUnit) → AllPass fs u → all_pass fs u ≡ true
unfolding all_pass
of_AllPass [] u h = refl
of_AllPass (f ∷ fs) u h =
    let first = of_Passes (f u) (h f (Memᴰ.head refl)) in
    let rest = of_AllPass fs u (λ g m. h g (Memᴰ.tail m)) in ground arith

acceptable_are :
    (pres fs : List (QueueUnit → Code)) (u : QueueUnit)
    → is_queue_unit_acceptable pres fs u ≡ true
    → AllPass fs u × ((fs ≡ []) ⊎ AllPass pres u)
unfolding is_queue_unit_acceptable
acceptable_are pres [] u h = (λ g m. elim m [ ], inl refl)
acceptable_are pres (f ∷ fs) u h =
    (all_pass-AllPass (f ∷ fs) u (ground arith), inr (all_pass-AllPass pres u (ground arith)))

acceptable_of :
    (pres fs : List (QueueUnit → Code)) (u : QueueUnit)
    → AllPass fs u
    → (fs ≡ []) ⊎ AllPass pres u
    → is_queue_unit_acceptable pres fs u ≡ true
unfolding is_queue_unit_acceptable
acceptable_of pres [] u h k = refl
acceptable_of pres (f ∷ fs) u h (inl e) = absurd (ground (arith, e))
acceptable_of pres (f ∷ fs) u h (inr k) =
    let all = of_AllPass (f ∷ fs) u h in let pre = of_AllPass pres u k in rw (pre) all

pub eligible-IsEligible : (ps : Plugins) (u : QueueUnit) → eligible ps u ≡ true → IsEligible ps u
eligible-IsEligible ps u h =
    let both = acceptable_are ps.prefilters ps.filters u (ground arith) in
    record { owned = ground arith; accepted = both.0; preaccepted = both.1 }

pub of_IsEligible : (ps : Plugins) (u : QueueUnit) → IsEligible ps u → eligible ps u ≡ true
of_IsEligible ps u v =
    let owned = v.owned in
    let accepted = acceptable_of ps.prefilters ps.filters u v.accepted v.preaccepted in ground arith

pub prioritize_sums :
    (fs : List (QueueUnit → Option ℤ)) (u : QueueUnit)
    → prioritize_queue_unit fs u ≡ sum_answers fs u
unfolding prioritize_queue_unit
prioritize_sums [] u = refl
prioritize_sums (f ∷ fs) u = elim (Option-cases (f u)) [
  | inl e ↦ rw (e, prioritize_sums fs u) refl
  | inr (n, e) ↦ rw (e, prioritize_sums fs u) refl
]
