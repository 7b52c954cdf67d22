-- ===== src/Cron/Tests.antt =====
-- The due times of a schedule that is due at every full hour, and the list of active workloads.
use kubedl.Prelude.{
  ℕ, ◌+◌, ◌-◌, ◌*◌, ◌/◌, ◌<◌, suc, String, List, [], ◌∷◌, ◌≡◌, refl, arith, Distinct, elem, empty,
  extend,
}
use kubedl.Cron.{second, get_most_recent_schedule_time}
use kubedl.Cron.Due.{
  IsLatest, IsMostRecent, Finds, get_most_recent_schedule_time-IsLatest,
  get_most_recent_schedule_time-IsMostRecent,
}

abbrev hour : ℕ
hour = 3600000000000

abbrev hourly : ℕ → ℕ
hourly t = (t / hour + 1) * hour

hourly_moves : (t : ℕ) → t < hourly t
hourly_moves t = omega arith

hourly_grid :
    (k : ℕ)
    → hourly (hour + k * (2 * hour - hour)) ≡ hour + k * (2 * hour - hour) + (2 * hour - hour)
hourly_grid k = omega arith

get_most_recent_schedule_time-IsLatest_example :
    Finds
      (IsLatest (3600 * second) (7200 * second) (5 * hour + 17))
      (get_most_recent_schedule_time (suc (4 * hour)) hourly 5 (5 * hour + 17))
get_most_recent_schedule_time-IsLatest_example =
    get_most_recent_schedule_time-IsLatest hourly hourly_moves 5 3600 7200 (5 * hour + 17)
      (4 * hour) refl refl (omega arith)

get_most_recent_schedule_time-IsMostRecent_example :
    Finds
      (IsMostRecent hourly (3600 * second) (5 * hour + 17))
      (get_most_recent_schedule_time (suc (4 * hour)) hourly 5 (5 * hour + 17))
get_most_recent_schedule_time-IsMostRecent_example =
    get_most_recent_schedule_time-IsMostRecent hourly hourly_moves 5 3600 7200 (5 * hour + 17)
      (4 * hour) refl hourly_grid (omega arith)

abbrev active : List String
active = "u1" ∷ "u2" ∷ "u3" ∷ []

active-Distinct : Distinct active
unfolding elem
active-Distinct = extend refl (extend refl (extend refl empty))
