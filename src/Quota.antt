-- ===== src/Quota.antt =====
-- pkg/jobcoordinator/plugins/quota/quota.go: whether a job of a tenant fits into the quotas of its
-- namespace, with the requests of the jobs that have just been dequeued assumed as used; and
-- AnyLessThanOrEqual of pkg/util/resource_utils/resources.go. The arithmetic on resource lists, a
-- library's, is an interface with the laws that are relied on.
pub mod Lists
pub mod Fits
mod Tests
use kubedl.Prelude.{
  ℕ, ◌+◌, ◌-◌, ◌≤◌, String, Bool, true, false, not, ◌&&◌, ◌||◌, Option, none, some, List, [], ◌∷◌,
  ◌≡◌, str_eq, ltb, if◌then◌else◌,
}
use kubedl.Prelude.Map.{lookup, insert, delete, has_key}
use kubedl.Api.{JobStatus}
use kubedl.Conditions.{is_running, is_failed, is_succeeded}

-- Amounts in thousandths, by the name of the resource.
abbrev pub ResourceList : Type 0
ResourceList = List (String × ℕ)

abbrev pub or_zero : Option ℕ → ℕ
or_zero none = 0
or_zero (some n) = n

abbrev pub amount : String → ResourceList → ℕ
amount k a = or_zero (lookup k a)

-- k8s.io/apiserver/pkg/quota/v1: Add, Mask to the names of another list, Subtract and
-- SubtractWithNonNegativeResult. Subtract is only used where nothing gets negative.
pub record QuotaMath : Type 0 where
  pub add : ResourceList → ResourceList → ResourceList
  pub mask : ResourceList → ResourceList → ResourceList
  pub subtract : ResourceList → ResourceList → ResourceList
  pub subtract_non_negative : ResourceList → ResourceList → ResourceList
  pub add_law : (k : String) (a b : ResourceList) → amount k (add a b) ≡ amount k a + amount k b
  pub mask_law :
      (k : String) (a b : ResourceList) → has_key k b ≡ true → lookup k (mask a b) ≡ lookup k a
  pub subtract_law :
      (k : String) (a b : ResourceList) (x : ℕ)
      → lookup k a ≡ some x
      → amount k b ≤ x
      → lookup k (subtract a b) ≡ some (x - amount k b)
  pub non_negative_law :
      (k : String) (a b : ResourceList) (x : ℕ)
      → lookup k a ≡ some x
      → lookup k (subtract_non_negative a b) ≡ some (x - amount k b)

-- AnyLessThanOrEqual, without the names.
unfoldable pub any_less_than_or_equal : ResourceList → ResourceList → Bool
any_less_than_or_equal a [] = false
any_less_than_or_equal a ((k, v) ∷ b) =
    elim (lookup k a) [ none ↦ false | some other ↦ ltb other v ] || any_less_than_or_equal a b

-- A queue unit as far as the plugin reads it. `queue` is that of its scheduling policy.
pub record QuotaUnit : Type 0 where
  pub key : String
  pub namespace : String
  pub tenant : String
  pub queue : Option String
  pub resources : ResourceList

-- TenantName: the name, and the unit with its tenant set.
unfoldable pub tenant_name : QuotaUnit → String × QuotaUnit
tenant_name u =
    let queue : String = elim u.queue [ none ↦ "" | some q ↦ q ] in
    let named : QuotaUnit =
      if not (str_eq queue "") && str_eq u.tenant "" then record u { tenant = queue } else u in
    (if not (str_eq named.tenant "") then named.tenant else named.namespace, named)

-- The latest status of the job of a unit, as the API server tells it.
pub data Latest : Type 0 where
  has_status : JobStatus → Latest
  is_gone no_answer : Latest

pub record AssumedQuota : Type 0 where
  pub assumed_for : QuotaUnit
  pub timestamp : ℕ

-- The 60 seconds of defaultQuotaAssumedTimeoutSeconds, in nanoseconds.
abbrev pub assumed_timeout : ℕ
assumed_timeout = 60000000000

abbrev pub has_started : Latest → Bool
has_started (has_status s) = is_running s || is_failed s || is_succeeded s
has_started is_gone = true
has_started no_answer = false

-- expired.
unfoldable pub expired : ℕ → (QuotaUnit → Latest) → AssumedQuota → Bool
expired now latest aq =
    ltb assumed_timeout (now - aq.timestamp) || has_started (latest aq.assumed_for)

-- The assumed quotas of one tenant, and of all.
abbrev pub TenantQuotas : Type 0
TenantQuotas = List (String × AssumedQuota)

abbrev pub AssumedQuotas : Type 0
AssumedQuotas = List (String × TenantQuotas)

abbrev pub of_tenant : Option TenantQuotas → TenantQuotas
of_tenant none = []
of_tenant (some qs) = qs

unfoldable pub drop_expired : ℕ → (QuotaUnit → Latest) → TenantQuotas → TenantQuotas
drop_expired now latest [] = []
drop_expired now latest ((k, aq) ∷ qs) =
    let rest = drop_expired now latest qs in if expired now latest aq then rest else (k, aq) ∷ rest

-- invalidateAssumedQuotas.
unfoldable pub invalidate_assumed_quotas :
    ℕ → (QuotaUnit → Latest) → String → AssumedQuotas → AssumedQuotas
invalidate_assumed_quotas now latest name m = elim (lookup name m) [
  | none ↦ m
  | some qs ↦ insert name (drop_expired now latest qs) m
]

-- A resource quota: its hard limits and what is used.
pub record ResourceQuota : Type 0 where
  pub hard : ResourceList
  pub used : ResourceList

pub data Verdict : Type 0 where
  success wait failed : Verdict

module _ (math : QuotaMath) where
  -- The loop of accumulateAssumedQuota: no list when nothing is assumed.
  unfoldable pub accumulate : TenantQuotas → Option ResourceList → Option ResourceList
  accumulate [] result = result
  accumulate ((k, aq) ∷ qs) result =
      let sum : ResourceList = elim result [ none ↦ [] | some r ↦ r ] in
      accumulate qs (some (math.add sum aq.assumed_for.resources))

  -- accumulateAssumedQuota, once the expired ones have been dropped.
  unfoldable pub accumulate_assumed_quota : String → AssumedQuotas → Option ResourceList
  accumulate_assumed_quota name m = accumulate (of_tenant (lookup name m)) none

  -- The two results of availableQuota.
  unfoldable pub exceeds : ResourceQuota → Bool
  exceeds rq = any_less_than_or_equal rq.hard (math.mask rq.used rq.hard)

  unfoldable pub available_quota : ResourceQuota → ResourceList
  available_quota rq = math.subtract rq.hard (math.mask rq.used rq.hard)

  unfoldable pub less_assumed : ResourceList → Option ResourceList → ResourceList
  less_assumed available none = available
  less_assumed available (some assumed) = math.subtract_non_negative available assumed

  abbrev pub asks_too_much : ResourceQuota → QuotaUnit → AssumedQuotas → Bool
  asks_too_much rq u m =
      any_less_than_or_equal
        (less_assumed (available_quota rq) (accumulate_assumed_quota u.tenant m)) u.resources

  -- The loop of Filter over the quotas, within which the clock stands still.
  unfoldable pub filter_quotas :
      ℕ
      → (QuotaUnit → Latest)
      → QuotaUnit
      → List ResourceQuota
      → AssumedQuotas
      → Verdict × AssumedQuotas
  filter_quotas now latest u [] m = (success, m)
  filter_quotas now latest u (rq ∷ rqs) m =
      let m' = invalidate_assumed_quotas now latest u.tenant m in
      elim (exceeds rq) [
        | true ↦ (wait, m)
        | false ↦ elim (asks_too_much rq u m') [
          | true ↦ (wait, m')
          | false ↦ filter_quotas now latest u rqs m'
        ]
      ]

  -- Filter, on the quotas of the namespace if they can be listed.
  unfoldable pub filter :
      ℕ
      → (QuotaUnit → Latest)
      → Option (List ResourceQuota)
      → QuotaUnit
      → AssumedQuotas
      → Verdict × AssumedQuotas
  filter now latest none u m = (failed, m)
  filter now latest (some rqs) u m = filter_quotas now latest u rqs m

-- assume.
unfoldable pub assume : ℕ → String → QuotaUnit → AssumedQuotas → AssumedQuotas
assume now name u m =
    let entry : AssumedQuota = record { assumed_for = u; timestamp = now } in
    insert name (insert u.key entry (of_tenant (lookup name m))) m

-- PreDequeue.
unfoldable pub pre_dequeue : ℕ → QuotaUnit → AssumedQuotas → AssumedQuotas
pre_dequeue now u m = assume now u.tenant u m
