-- ===== src/Conditions/Counting.antt =====
-- How many conditions of a type a status holds, before and after filterOutCondition.
use kubedl.Prelude.{
  ℕ, suc, ◌+◌, Bool, true, false, ◌&&◌, ◌||◌, List, [], ◌∷◌, ◌++◌, ◌≡◌, refl, arith, if◌then◌else◌,
}
use kubedl.Api.{
  JobConditionType, running, succeeded, failed, condition_true, JobCondition, type_eq, status_eq,
}
use kubedl.Conditions.{any_true, filter_out_condition, drops, demote}

-- The number of conditions of type `t`.
abbrev pub count_type : List JobCondition → JobConditionType → ℕ
count_type [] t = 0
count_type (c ∷ cs) t = if type_eq c.type t then suc (count_type cs t) else count_type cs t

pub count_type-append :
    (xs ys : List JobCondition) (t : JobConditionType)
    → count_type (xs ++ ys) t ≡ count_type xs t + count_type ys t
count_type-append [] ys t = omega arith
count_type-append (c ∷ xs) ys t = ground (arith, count_type-append xs ys t)

pub count_type-snoc :
    (xs : List JobCondition) (c : JobCondition) (t : JobConditionType)
    → count_type (xs ++ c ∷ []) t ≡ count_type xs t + (if type_eq c.type t then 1 else 0)
count_type-snoc xs c t = ground (arith, count_type-append xs (c ∷ []) t)

pub eq_of_type_eq : (a b : JobConditionType) → type_eq a b ≡ true → a ≡ b
unfolding type_eq
eq_of_type_eq a b h = ground arith

pub type_eq_self : (a : JobConditionType) → type_eq a a ≡ true
unfolding type_eq
type_eq_self a = ground arith

type_of_demote : (t : JobConditionType) (c : JobCondition) → (demote t c).type ≡ c.type
unfolding demote
type_of_demote t c = ground arith

-- A kept condition keeps its type, so the filter counts 0 or what was there.
pub count_type-filter_out_condition :
    (cs : List JobCondition) (t u : JobConditionType)
    → count_type (filter_out_condition cs t) u ≡ (if drops t u then 0 else count_type cs u)
unfolding filter_out_condition
count_type-filter_out_condition [] t u = ground arith
count_type-filter_out_condition (c ∷ cs) t u =
    ground
      (arith, count_type-filter_out_condition cs t u, type_of_demote t c, eq_of_type_eq c.type u)

pub any_true-append :
    (xs ys : List JobCondition) (t : JobConditionType)
    → any_true (xs ++ ys) t ≡ (any_true xs t || any_true ys t)
unfolding any_true
any_true-append [] ys t = refl
any_true-append (c ∷ xs) ys t = ground (arith, any_true-append xs ys t)

pub any_true-snoc :
    (xs : List JobCondition) (c : JobCondition) (t : JobConditionType)
    → any_true (xs ++ c ∷ []) t
      ≡ (any_true xs t || type_eq c.type t && status_eq c.status condition_true)
unfolding any_true
any_true-snoc xs c t = ground (arith, any_true-append xs (c ∷ []) t)

-- Whether entering a condition of type `t` takes the truth from a condition of type `u`.
unfoldable pub silences : JobConditionType → JobConditionType → Bool
silences t u = drops t u || (type_eq t failed || type_eq t succeeded) && type_eq u running

pub silences-drops : (t u : JobConditionType) → drops t u ≡ true → silences t u ≡ true
unfolding silences
silences-drops t u h = ground arith

-- The condition that the filter keeps is True where it was, unless its type is silenced.
status_of_demote :
    (t u : JobConditionType) (c : JobCondition)
    → type_eq c.type u ≡ true
    → drops t u ≡ false
    → status_eq (demote t c).status condition_true
      ≡ (if silences t u then false else status_eq c.status condition_true)
unfolding demote silences status_eq
status_of_demote t u c h k = ground (arith, eq_of_type_eq c.type u)

pub any_true-filter_out_condition :
    (cs : List JobCondition) (t u : JobConditionType)
    → any_true (filter_out_condition cs t) u ≡ (if silences t u then false else any_true cs u)
unfolding filter_out_condition any_true
any_true-filter_out_condition [] t u = ground arith
any_true-filter_out_condition (c ∷ cs) t u = ground (
  arith,
  any_true-filter_out_condition cs t u,
  type_of_demote t c,
  status_of_demote t u c,
  eq_of_type_eq c.type u,
  silences-drops t u,
)
