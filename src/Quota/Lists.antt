-- ===== src/Quota/Lists.antt =====
-- The comparison of resource lists, and the sum of what is assumed.
use kubedl.Prelude.{
  ℕ, ◌+◌, ◌≤◌, String, false, Option, none, some, [], ◌∷◌, ◌≡◌, ap, arith, str_eq, str_eq_iff,
  Bool-cases, Option-cases, inl, inr, if_rule, str_eq_refl,
}
use kubedl.Prelude.Map.{lookup, insert, lookup-insert}
use kubedl.Quota.{
  ResourceList, amount, QuotaMath, any_less_than_or_equal, AssumedQuota, TenantQuotas, accumulate,
  QuotaUnit, Latest, expired, drop_expired, AssumedQuotas, of_tenant, invalidate_assumed_quotas,
  assume,
}

-- What the comparison says of one resource.
pub any_less_than_or_equal-false :
    (k : String) (a b : ResourceList) (x v : ℕ)
    → any_less_than_or_equal a b ≡ false
    → lookup k b ≡ some v
    → lookup k a ≡ some x
    → v ≤ x
unfolding any_less_than_or_equal lookup
any_less_than_or_equal-false k a [] x v h e f = cc
any_less_than_or_equal-false k a ((j, w) ∷ b) x v h e f = elim (Bool-cases (str_eq j k)) [
  | inl s ↦ ground (arith, ap (λ i. lookup i a) ((str_eq_iff j k).0 s))
  | inr n ↦ any_less_than_or_equal-false k a b x v (ground arith) (rw (n) at e) f
]

-- The amount of a resource that is assumed.
unfoldable pub assumed_amount : String → TenantQuotas → ℕ
assumed_amount k [] = 0
assumed_amount k ((j, aq) ∷ qs) = amount k aq.assumed_for.resources + assumed_amount k qs

abbrev pub sum_of : Option ResourceList → ResourceList
sum_of none = []
sum_of (some r) = r

pub amount-accumulate :
    (math : QuotaMath) (k : String) (qs : TenantQuotas) (o : Option ResourceList)
    → amount k (sum_of (accumulate math qs o)) ≡ amount k (sum_of o) + assumed_amount k qs
unfolding accumulate assumed_amount
amount-accumulate math k [] o = omega arith
amount-accumulate math k ((j, aq) ∷ qs) none = omega (
  arith,
  amount-accumulate math k qs (some (math.add [] aq.assumed_for.resources)),
  math.add_law k [] aq.assumed_for.resources,
)
amount-accumulate math k ((j, aq) ∷ qs) (some r) = omega (
  arith,
  amount-accumulate math k qs (some (math.add r aq.assumed_for.resources)),
  math.add_law k r aq.assumed_for.resources,
)

pub assumed_amount-insert :
    (k j : String) (aq : AssumedQuota) (qs : TenantQuotas)
    → assumed_amount k (insert j aq qs) ≤ amount k aq.assumed_for.resources + assumed_amount k qs
unfolding assumed_amount insert
assumed_amount-insert k j aq [] = omega arith
assumed_amount-insert k j aq ((i, bq) ∷ qs) = elim (Bool-cases (str_eq i j)) [
  | inl e ↦ rw (e) (omega arith)
  | inr e ↦ rw (e) (omega (arith, assumed_amount-insert k j aq qs))
]

pub assumed_amount-drop_expired :
    (k : String) (now : ℕ) (latest : QuotaUnit → Latest) (qs : TenantQuotas)
    → assumed_amount k (drop_expired now latest qs) ≤ assumed_amount k qs
unfolding assumed_amount drop_expired
assumed_amount-drop_expired k now latest [] = omega arith
assumed_amount-drop_expired k now latest ((j, aq) ∷ qs) =
    if_rule (λ l. assumed_amount k l ≤ amount k aq.assumed_for.resources + assumed_amount k qs)
      (expired now latest aq) (λ _. omega (arith, assumed_amount-drop_expired k now latest qs))
      (λ _. omega (arith, assumed_amount-drop_expired k now latest qs))

-- What is assumed of a resource for a tenant.
abbrev pub assumed_of : String → String → AssumedQuotas → ℕ
assumed_of k tenant m = assumed_amount k (of_tenant (lookup tenant m))

pub assumed_of-invalidate :
    (k : String) (now : ℕ) (latest : QuotaUnit → Latest) (tenant : String) (m : AssumedQuotas)
    → assumed_of k tenant (invalidate_assumed_quotas now latest tenant m) ≤ assumed_of k tenant m
unfolding invalidate_assumed_quotas
assumed_of-invalidate k now latest tenant m = elim (Option-cases (lookup tenant m)) [
  | inl n ↦ rw (n, invalidate_assumed_quotas) (rw (n) (omega arith))
  | inr (qs, e) ↦
      rw (e, invalidate_assumed_quotas)
        (rw (lookup-insert tenant tenant (drop_expired now latest qs) m, str_eq_refl tenant)
          (assumed_amount-drop_expired k now latest qs))
]

pub assumed_of-assume :
    (k : String) (now : ℕ) (tenant : String) (u : QuotaUnit) (m : AssumedQuotas)
    → assumed_of k tenant (assume now tenant u m) ≤ amount k u.resources + assumed_of k tenant m
unfolding assume
assumed_of-assume k now tenant u m =
    let entry : AssumedQuota = record { assumed_for = u; timestamp = now } in
    let qs = of_tenant (lookup tenant m) in
    rw (lookup-insert tenant tenant (insert u.key entry qs) m, str_eq_refl tenant)
      (assumed_amount-insert k u.key entry qs)
