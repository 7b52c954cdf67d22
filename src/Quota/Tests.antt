-- ===== src/Quota/Tests.antt =====
-- A tenant with one dequeued job, and a second job that just fits.
use kubedl.Prelude.{
  ℕ, ◌+◌, ◌-◌, String, true, none, some, [], ◌∷◌, ◌≡◌, refl, ap, ◌∙◌, arith, str_eq, str_eq_iff,
  str_eq_refl, if◌then◌else◌, Bool-cases, inl, inr,
}
use kubedl.Prelude.Map.{lookup, insert, has_key, lookup-insert}
use kubedl.Quota.{
  ResourceList, or_zero, amount, QuotaMath, any_less_than_or_equal, QuotaUnit, no_answer,
  AssumedQuotas, ResourceQuota, success, exceeds, available_quota, less_assumed, expired,
  drop_expired, accumulate, accumulate_assumed_quota, invalidate_assumed_quotas, filter_quotas,
  filter, assume, pre_dequeue,
}
use kubedl.Quota.Lists.{assumed_of}
use kubedl.Quota.Fits.{AllWithin, filter-pre_dequeue}

-- Amounts taken one by one from a list of names.
module _ (f : String → ℕ) where
  tabulate : ResourceList → ResourceList
  tabulate [] = []
  tabulate ((k, v) ∷ a) = (k, f k) ∷ tabulate a

  lookup-tabulate :
      (k : String) (a : ResourceList) (x : ℕ)
      → lookup k a ≡ some x
      → lookup k (tabulate a) ≡ some (f k)
  unfolding lookup tabulate
  lookup-tabulate k [] x h = cc
  lookup-tabulate k ((j, v) ∷ a) x h = elim (Bool-cases (str_eq j k)) [
    | inl e ↦ rw (e, ap f ((str_eq_iff j k).0 e)) refl
    | inr e ↦ rw (e) (lookup-tabulate k a x (rw (e) at h))
  ]

sum : ResourceList → ResourceList → ResourceList
sum [] b = b
sum ((j, v) ∷ a) b = insert j (v + amount j b) (sum a b)

sum_law : (k : String) (a b : ResourceList) → amount k (sum a b) ≡ amount k a + amount k b
unfolding sum lookup
sum_law k [] b = omega arith
sum_law k ((j, v) ∷ a) b =
    rw (lookup-insert j k (v + amount j b) (sum a b)) (elim (Bool-cases (str_eq j k)) [
      | inl e ↦ rw (e, (str_eq_iff j k).0 e) refl
      | inr e ↦ rw (e) (sum_law k a b)
    ])

restrict : ResourceList → ResourceList → ResourceList
restrict [] b = []
restrict ((j, v) ∷ a) b = let rest = restrict a b in if has_key j b then (j, v) ∷ rest else rest

restrict_law :
    (k : String) (a b : ResourceList) → has_key k b ≡ true → lookup k (restrict a b) ≡ lookup k a
unfolding restrict lookup
restrict_law k [] b h = refl
restrict_law k ((j, v) ∷ a) b h = elim (Bool-cases (str_eq j k)) [
  | inl e ↦ rw ((str_eq_iff j k).0 e, h) (rw (str_eq_refl k) refl)
  | inr e ↦ elim (Bool-cases (has_key j b)) [
    | inl i ↦ rw (i, e) (restrict_law k a b h)
    | inr i ↦ rw (i, e) (restrict_law k a b h)
  ]
]

difference : ResourceList → ResourceList → ResourceList
difference a b = tabulate (λ k. amount k a - amount k b) a

difference_law :
    (k : String) (a b : ResourceList) (x : ℕ)
    → lookup k a ≡ some x
    → lookup k (difference a b) ≡ some (x - amount k b)
unfolding difference
difference_law k a b x h =
    lookup-tabulate (λ j. amount j a - amount j b) k a x h
    ∙ ap (λ n. some (n - amount k b)) (ap or_zero h)

abbrev math : QuotaMath
math = record {
  add = sum;
  mask = restrict;
  subtract = difference;
  subtract_non_negative = difference;
  add_law = sum_law;
  mask_law = restrict_law;
  subtract_law = λ k a b x h _. difference_law k a b x h;
  non_negative_law = difference_law;
}

abbrev job : String → QuotaUnit
job name = record {
  key = name;
  namespace = "ns";
  tenant = "ns";
  queue = none;
  resources = ("cpu", 4000) ∷ [];
}

abbrev quota : ResourceQuota
quota = record { hard = ("cpu", 10000) ∷ []; used = ("cpu", 2000) ∷ [] }

abbrev assumed : AssumedQuotas
assumed = pre_dequeue 5 (job "first") []

passes : (filter math 7 (λ u. no_answer) (some (quota ∷ [])) (job "second") assumed).0 ≡ success
unfolding filter filter_quotas invalidate_assumed_quotas drop_expired expired pre_dequeue assume
    exceeds available_quota less_assumed accumulate_assumed_quota accumulate any_less_than_or_equal
    sum restrict difference tabulate lookup insert has_key
passes = refl

asked : lookup "cpu" (job "second").resources ≡ some 4000
unfolding lookup
asked = refl

filter-pre_dequeue_example :
    AllWithin "cpu"
      (assumed_of "cpu" "ns" (
        pre_dequeue 8
          (job "second")
          (filter math 7 (λ u. no_answer) (some (quota ∷ [])) (job "second") assumed).1))
      (quota ∷ [])
filter-pre_dequeue_example =
    filter-pre_dequeue math 7 8 (λ u. no_answer) (quota ∷ []) (job "second") assumed "cpu" 4000
      asked (omega arith) passes
