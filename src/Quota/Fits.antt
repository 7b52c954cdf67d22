-- ===== src/Quota/Fits.antt =====
-- No more is admitted than a quota allows.
use kubedl.Prelude.{
  ℕ, ◌+◌, ◌-◌, ◌≤◌, ◌<◌, String, true, false, Option, none, some, List, [], ◌∷◌, ◌≡◌, refl, ap, ◌∙◌,
  arith, Option-cases, case_rule, inl, inr,
}
use kubedl.Prelude.Map.{lookup, has_key}
use kubedl.Quota.{
  ResourceList, or_zero, amount, QuotaMath, QuotaUnit, Latest, AssumedQuotas, of_tenant,
  ResourceQuota, Verdict, success, wait, exceeds, available_quota, less_assumed, asks_too_much,
  accumulate_assumed_quota, accumulate, filter_quotas, filter, invalidate_assumed_quotas,
  pre_dequeue,
}
use kubedl.Quota.Lists.{
  assumed_of, assumed_of-invalidate, assumed_of-assume, any_less_than_or_equal-false, sum_of,
  amount-accumulate,
}

-- Of the resource `k`, what is used and `extra` are within the hard limit, if the quota has one.
abbrev pub Within : String → ℕ → ResourceQuota → Type 0
Within k extra rq = (h : ℕ) → lookup k rq.hard ≡ some h → amount k rq.used + extra ≤ h

abbrev pub AllWithin : String → ℕ → List ResourceQuota → Type 0
AllWithin k extra [] = Unit {0}
AllWithin k extra (rq ∷ rqs) = Within k extra rq × AllWithin k extra rqs

some_key : (k : String) (a : ResourceList) (h : ℕ) → lookup k a ≡ some h → has_key k a ≡ true
unfolding has_key
some_key k a h e = rw (e) refl

module _ (math : QuotaMath) (k : String) where
  masked_same :
      (rq : ResourceQuota) (h : ℕ)
      → lookup k rq.hard ≡ some h
      → lookup k (math.mask rq.used rq.hard) ≡ lookup k rq.used
  masked_same rq h f = math.mask_law k rq.used rq.hard (some_key k rq.hard h f)

  used_within :
      (rq : ResourceQuota) (h : ℕ)
      → exceeds math rq ≡ false
      → lookup k rq.hard ≡ some h
      → amount k rq.used ≤ h
  unfolding exceeds
  used_within rq h e f = elim (Option-cases (lookup k rq.used)) [
    | inl n ↦ rw (n) (omega arith)
    | inr (u, g) ↦ rw (g) (
        any_less_than_or_equal-false k rq.hard (math.mask rq.used rq.hard) h u e
          (masked_same rq h f ∙ g) f)
  ]

  available_some :
      (rq : ResourceQuota) (h : ℕ)
      → exceeds math rq ≡ false
      → lookup k rq.hard ≡ some h
      → lookup k (available_quota math rq) ≡ some (h - amount k rq.used)
  unfolding available_quota
  available_some rq h e f =
      let same = ap or_zero (masked_same rq h f) in
      math.subtract_law k rq.hard (math.mask rq.used rq.hard) h f (rw (same) (used_within rq h e f))
      ∙ ap (λ n. some (h - n)) same

  less_assumed-some :
      (available : ResourceList) (x : ℕ) (o : Option ResourceList)
      → lookup k available ≡ some x
      → lookup k (less_assumed math available o) ≡ some (x - amount k (sum_of o))
  unfolding less_assumed lookup
  less_assumed-some available x none e = e ∙ ap some (omega arith)
  less_assumed-some available x (some a) e = math.non_negative_law k available a x e

  one-Within :
      (rq : ResourceQuota) (u : QuotaUnit) (m : AssumedQuotas) (r : ℕ)
      → lookup k u.resources ≡ some r
      → 0 < r
      → exceeds math rq ≡ false
      → asks_too_much math rq u m ≡ false
      → Within k (assumed_of k u.tenant m + r) rq
  unfolding accumulate_assumed_quota
  one-Within rq u m r e p q a h f =
      let qs = of_tenant (lookup u.tenant m) in
      let x = h - amount k rq.used in
      let left =
        less_assumed-some (available_quota math rq) x (accumulate math qs none)
          (available_some rq h q f) in
      let room =
        any_less_than_or_equal-false k
          (less_assumed math (available_quota math rq) (accumulate math qs none)) u.resources
          (x - amount k (sum_of (accumulate math qs none))) r a e left in
      omega (arith, room, used_within rq h q f, amount-accumulate math k qs none)

less-Within : (k : String) (n m : ℕ) (rq : ResourceQuota) → m ≤ n → Within k n rq → Within k m rq
less-Within k n m rq le w h f = omega (arith, w h f)

less-AllWithin :
    (k : String) (n m : ℕ) (rqs : List ResourceQuota)
    → m ≤ n
    → AllWithin k n rqs
    → AllWithin k m rqs
less-AllWithin k n m [] le w = tt
less-AllWithin k n m (rq ∷ rqs) le w =
    (less-Within k n m rq le w.0, less-AllWithin k n m rqs le w.1)

-- What the loop leaves when it lets the unit pass.
record Passed (math : QuotaMath) (k : String) (r : ℕ) (u : QuotaUnit) (rqs : List ResourceQuota)
    (m m' : AssumedQuotas) : Type 0 where
  within : AllWithin k (assumed_of k u.tenant m' + r) rqs
  fewer : assumed_of k u.tenant m' ≤ assumed_of k u.tenant m

module _ (math : QuotaMath) (k : String) (now : ℕ) (latest : QuotaUnit → Latest) (u : QuotaUnit)
    (r : ℕ) (asks : lookup k u.resources ≡ some r) (positive : 0 < r) where
  abbrev OnSuccess : List ResourceQuota → AssumedQuotas → Verdict × AssumedQuotas → Type 0
  OnSuccess rqs m res = res.0 ≡ success → Passed math k r u rqs m res.1

  filter_quotas-Passed :
      (rqs : List ResourceQuota) (m : AssumedQuotas)
      → OnSuccess rqs m (filter_quotas math now latest u rqs m)
  unfolding filter_quotas
  filter_quotas-Passed [] m = λ h. record { within = tt; fewer = omega arith }
  filter_quotas-Passed (rq ∷ rqs) m =
      let m' = invalidate_assumed_quotas now latest u.tenant m in
      let rest = filter_quotas-Passed rqs m' in
      case_rule (OnSuccess (rq ∷ rqs) m) (exceeds math rq) (wait, m) _ (λ _ h. cc)
        (λ e.
          case_rule (OnSuccess (rq ∷ rqs) m) (asks_too_much math rq u m') (wait, m') _ (λ _ h. cc)
            (λ a h.
              let p = rest h in
              record {
                within = (
                  less-Within k _ _ rq (omega (arith, p.fewer))
                      (one-Within math k rq u m' r asks positive e a),
                  p.within,
                );
                fewer = omega (arith, p.fewer, assumed_of-invalidate k now latest u.tenant m);
              }))

-- A queued job that Filter lets pass and PreDequeue then assumes: of every resource that the job
-- asks for, what is used, what is assumed for the tenant and the job's own request are together
-- within the hard limit of every quota of the namespace that limits the resource; where the
-- arithmetic on resource lists is right.
pub filter-pre_dequeue :
    (math : QuotaMath) (now later : ℕ) (latest : QuotaUnit → Latest)
    → (rqs : List ResourceQuota) (u : QuotaUnit) (m : AssumedQuotas) (k : String) (r : ℕ)
    → lookup k u.resources ≡ some r
    → 0 < r
    → (filter math now latest (some rqs) u m).0 ≡ success
    → AllWithin k
        (assumed_of k u.tenant (pre_dequeue later u (filter math now latest (some rqs) u m).1))
        rqs
unfolding filter pre_dequeue
filter-pre_dequeue math now later latest rqs u m k r asks positive h =
    let m' = (filter_quotas math now latest u rqs m).1 in
    let p = filter_quotas-Passed math k now latest u r asks positive rqs m h in
    let after = assumed_of-assume k later u.tenant u m' in
    let own : amount k u.resources ≡ r = ap or_zero asks in
    less-AllWithin k (assumed_of k u.tenant m' + r) _ rqs (omega (arith, after, own)) p.within
