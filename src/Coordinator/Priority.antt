-- ===== src/Coordinator/Priority.antt =====
-- pkg/jobcoordinator/plugins/priority/priority.go, and PopulatePriorityValue of
-- pkg/jobcoordinator/helper/helper.go.
use kubedl.Prelude.{String, Option, none, some, str_eq, if◌then◌else◌}
use kubedl.Prelude.Int.{ℤ, pos}

-- The scheduling policy, as far as the priority.
pub record SchedulingPolicy : Type 0 where
  pub priority : Option ℤ
  pub priority_class_name : String

pub record PriorityUnit : Type 0 where
  pub priority : Option ℤ
  pub policy : Option SchedulingPolicy

abbrev pub class_value : (String → Option ℤ) → SchedulingPolicy → Option ℤ
class_value classes p =
    if str_eq p.priority_class_name "" then none else classes p.priority_class_name

abbrev pub populated : (String → Option ℤ) → Option ℤ → Option SchedulingPolicy → Option ℤ
populated classes (some v) policy = some v
populated classes none none = none
populated classes none (some p) = class_value classes p

-- PopulatePriorityValue: `classes` are the values of the priority classes that can be read.
unfoldable pub populate_priority_value : (String → Option ℤ) → PriorityUnit → PriorityUnit
populate_priority_value classes u = record u { priority = populated classes u.priority u.policy }

abbrev pub by_policy :
    (String → Option ℤ) → PriorityUnit → Option ℤ → Option SchedulingPolicy → PriorityUnit
by_policy classes u (some v) policy = u
by_policy classes u none none = u
by_policy classes u none (some p) = elim p.priority [
  | none ↦ populate_priority_value classes u
  | some v ↦ record u { priority = some v }
]

abbrev pub or_nought : Option ℤ → ℤ
or_nought none = pos 0
or_nought (some v) = v

-- Score: the score, and the unit with its priority.
unfoldable pub score : (String → Option ℤ) → PriorityUnit → ℤ × PriorityUnit
score classes u = let v = by_policy classes u u.priority u.policy in (or_nought v.priority, v)
