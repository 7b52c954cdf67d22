-- ===== src/Conditions/Invariant.antt =====
-- What holds of the conditions of a job status after any sequence of updates.
use kubedl.Prelude.{
  ℕ, ◌+◌, ◌≤◌, String, Bool, true, false, ◌&&◌, ◌||◌, [], ◌∷◌, ◌++◌, ◌≡◌, refl, arith,
  if◌then◌else◌,
}
use kubedl.Api.{
  JobConditionType, running, restarting, succeeded, failed, condition_true, JobCondition, JobStatus,
  type_eq, status_eq,
}
use kubedl.Conditions.{
  is_failed, is_succeeded, is_running, has_condition, get_condition, new_condition,
  filter_out_condition, drops, unchanged, keep_transition, set_condition, update_job_conditions,
}
use kubedl.Conditions.Counting.{
  count_type, count_type-snoc, count_type-filter_out_condition, any_true-snoc, silences,
  any_true-filter_out_condition,
}

-- A finished job: it has failed or succeeded.
abbrev pub is_finished : JobStatus → Bool
is_finished s = is_failed s || is_succeeded s

-- Types are unique, Running and Restarting exclude one another, and so do Failed and Succeeded. A
-- finished job is not running.
pub record IsWellFormed (s : JobStatus) : Type 0 where
  pub distinct : (t : JobConditionType) → count_type s.conditions t ≤ 1
  pub exclusive : count_type s.conditions running + count_type s.conditions restarting ≤ 1
  pub one_end : (is_failed s && is_succeeded s) ≡ false
  pub not_running : is_finished s ≡ true → is_running s ≡ false

-- The condition that an update enters.
abbrev pub kept : ℕ → JobStatus → JobConditionType → String → String → JobCondition
kept now s t r m = keep_transition (get_condition s t) (new_condition now t r m)

-- The status after an update that changes something.
abbrev pub entered : ℕ → JobStatus → JobConditionType → String → String → JobStatus
entered now s t r m = record s {
  conditions = filter_out_condition s.conditions t ++ kept now s t r m ∷ [];
}

-- The three outcomes of an update.
pub update_cases :
    (now : ℕ) (s : JobStatus) (t : JobConditionType) (r m : String)
    → update_job_conditions now s t r m ≡ (
        if is_finished s || unchanged (get_condition s t) (new_condition now t r m)
        then s
        else entered now s t r m)
unfolding update_job_conditions set_condition
update_cases now s t r m = ground arith

module _ (now : ℕ) (s : JobStatus) (t : JobConditionType) (r m : String) where
  pub kept_fields :
      ((kept now s t r m).type ≡ t)
      × ((kept now s t r m).status ≡ condition_true)
      × ((kept now s t r m).reason ≡ r)
  kept_fields = ground arith

  pub count_type-entered :
      (u : JobConditionType)
      → count_type (entered now s t r m).conditions u
        ≡ (if drops t u then 0 else count_type s.conditions u) + (if type_eq t u then 1 else 0)
  count_type-entered u =
      rw (count_type-snoc (filter_out_condition s.conditions t) (kept now s t r m) u)
        (ground (arith, kept_fields, count_type-filter_out_condition s.conditions t u))

  pub has_condition-entered :
      (u : JobConditionType)
      → has_condition (entered now s t r m) u
        ≡ (type_eq t u || (if silences t u then false else has_condition s u))
  unfolding has_condition status_eq
  has_condition-entered u =
      rw (any_true-snoc (filter_out_condition s.conditions t) (kept now s t r m) u)
        (ground (arith, kept_fields, any_true-filter_out_condition s.conditions t u))

drops_self : (t u : JobConditionType) → type_eq t u ≡ true → drops t u ≡ true
unfolding drops type_eq
drops_self t u h = ground arith

module _ (now : ℕ) (s : JobStatus) (t : JobConditionType) (r m : String) (v : IsWellFormed s) where
  entered_distinct : (u : JobConditionType) → count_type (entered now s t r m).conditions u ≤ 1
  entered_distinct u =
      ground (arith, count_type-entered now s t r m u, v.distinct u, drops_self t u)

  entered_exclusive :
      count_type (entered now s t r m).conditions running
        + count_type (entered now s t r m).conditions restarting
      ≤ 1
  unfolding drops type_eq
  entered_exclusive = ground (
    arith,
    count_type-entered now s t r m running,
    count_type-entered now s t r m restarting,
    v.exclusive,
  )

  entered_one_end :
      is_finished s ≡ false
      → (is_failed (entered now s t r m) && is_succeeded (entered now s t r m)) ≡ false
  unfolding type_eq
  entered_one_end h =
      ground (
        arith,
        has_condition-entered now s t r m failed,
        has_condition-entered now s t r m succeeded,
      )

  entered_not_running :
      is_finished s ≡ false
      → is_finished (entered now s t r m) ≡ true
      → is_running (entered now s t r m) ≡ false
  unfolding type_eq silences drops
  entered_not_running h k = ground (
    arith,
    has_condition-entered now s t r m failed,
    has_condition-entered now s t r m succeeded,
    has_condition-entered now s t r m running,
  )

  pub entered-IsWellFormed : is_finished s ≡ false → IsWellFormed (entered now s t r m)
  entered-IsWellFormed h = record {
    distinct = entered_distinct;
    exclusive = entered_exclusive;
    one_end = entered_one_end h;
    not_running = entered_not_running h;
  }

pub ite-IsWellFormed :
    (finished same : Bool) (s s' : JobStatus)
    → IsWellFormed s
    → (finished ≡ false → IsWellFormed s')
    → IsWellFormed (if finished || same then s else s')
ite-IsWellFormed true same s s' v w = v
ite-IsWellFormed false true s s' v w = v
ite-IsWellFormed false false s s' v w = w refl

-- UpdateJobConditions keeps the invariant of the conditions: types stay unique, Running excludes
-- Restarting, Failed excludes Succeeded, and a finished job is not running.
pub update_job_conditions-IsWellFormed :
    (now : ℕ) (s : JobStatus) (t : JobConditionType) (r m : String)
    → IsWellFormed s
    → IsWellFormed (update_job_conditions now s t r m)
update_job_conditions-IsWellFormed now s t r m v = rw (update_cases now s t r m) (
    ite-IsWellFormed (is_finished s) (unchanged (get_condition s t) (new_condition now t r m)) s
      (entered now s t r m) v (entered-IsWellFormed now s t r m v))
