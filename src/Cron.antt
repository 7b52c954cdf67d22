-- ===== src/Cron.antt =====
-- controllers/apps/cron_utils.go: when a cron workload is due, and the list of its active workloads.
pub mod Due
pub mod Active
pub mod Trim
pub mod History
pub mod Sync
pub mod Reconcile
mod Scenarios
mod Tests
use kubedl.Prelude.{
  ℕ, zero, suc, ◌+◌, ◌-◌, ◌*◌, ◌/◌, String, Bool, true, false, ◌||◌, Option, none, some, List, [],
  ◌∷◌, str_eq, ltb, leb, if◌then◌else◌,
}
use kubedl.Api.{JobConditionType, JobCondition, JobStatus}
use kubedl.Conditions.{is_failed, is_succeeded, last_condition}

-- Times are in nanoseconds since 1970.
abbrev pub second : ℕ
second = 1000000000

-- What getMostRecentScheduleTime returns: no time, a time with the number of missed schedules, or
-- an error.
pub data Recent : Type 0 where
  none_due invalid_schedule : Recent
  due : ℕ → ℕ → Recent

-- The loop `for !t2.After(now) { t2 = schedule.Next(t2) }`, on fuel. `next` is the schedule's: the
-- first time after a time.
unfoldable pub advance : ℕ → (ℕ → ℕ) → ℕ → ℕ → Option ℕ
advance zero next now t = none
advance (suc fuel) next now t =
    let rest = advance fuel next now (next t) in if ltb now t then some t else rest

-- More than one schedule has been missed: the loop runs, and the time is computed from the distance
-- of the first two. There is no result when the loop has run out of fuel.
unfoldable pub extrapolate : ℕ → (ℕ → ℕ) → ℕ → ℕ → ℕ → Option Recent
extrapolate fuel next t1 t2 now =
    let delta = (t2 - t1 + 500000000) / second in
    let missed = (now - t1) / second / delta + 1 in
    let t = (t1 / second + (missed - 1) * delta) * second in
    if ltb delta 1
    then some invalid_schedule
    else elim (advance fuel next now t2) [ none ↦ none | some u ↦ some (due t missed) ]

-- getMostRecentScheduleTime.
unfoldable pub get_most_recent_schedule_time : ℕ → (ℕ → ℕ) → ℕ → ℕ → Option Recent
get_most_recent_schedule_time fuel next earliest now =
    let t1 = next earliest in
    let t2 = next t1 in
    if ltb now t1
    then some none_due
    else if ltb now t2
    then some (due t1 1)
    else extrapolate fuel next t1 t2 now

-- getNextScheduleTime: from the last schedule, or from the creation of the cron.
unfoldable pub get_next_schedule_time : ℕ → (ℕ → ℕ) → Option ℕ → ℕ → ℕ → Option Recent
get_next_schedule_time fuel next last created now =
    let earliest : ℕ = elim last [ none ↦ created | some t ↦ t ] in
    if ltb now earliest then some none_due else get_most_recent_schedule_time fuel next earliest now

-- inActiveList, on the uids of the list.
unfoldable pub in_active_list : List String → String → Bool
in_active_list [] uid = false
in_active_list (u ∷ us) uid =
    let rest = in_active_list us uid in if str_eq u uid then true else rest

-- deleteFromActiveList: the first entry with the uid.
unfoldable pub delete_from_active_list : List String → String → List String
delete_from_active_list [] uid = []
delete_from_active_list (u ∷ us) uid =
    let rest = delete_from_active_list us uid in if str_eq u uid then us else u ∷ rest

-- IsWorkloadFinished: the type of the last condition, if there is one, and whether it has finished.
unfoldable pub is_workload_finished : JobStatus → Option JobConditionType × Bool
is_workload_finished s = (
  elim (last_condition s.conditions) [ none ↦ none | some c ↦ some c.type ],
  is_failed s || is_succeeded s,
)
