-- ===== src/Coordinator.antt =====
-- pkg/jobcoordinator/core: the queues of the tenants, the index that finds the queue of a job, and
-- the choice of the next job to hand to its controller.
pub mod Index
pub mod Life
pub mod Events
pub mod Priority
pub mod Eligible
pub mod Selects
pub mod Schedule
pub mod Fair
mod Tests
use kubedl.Prelude.{
  ℕ, zero, suc, ◌+◌, ◌%◌, String, Bool, true, false, not, ◌&&◌, ◌||◌, Option, none, some, List, [],
  ◌∷◌, ◌++◌, map, ◌==◌, str_eq, is_some, length, if◌then◌else◌,
}
use kubedl.Prelude.Int.{ℤ, pos, add_ℤ, ltb_ℤ}
use kubedl.Prelude.Map.{lookup, insert, delete, has_key}
use kubedl.Prelude.Format.{◌<>◌}
use kubedl.Api.{queuing, JobStatus}
use kubedl.Conditions.{update_job_conditions, is_enqueued, job_enqueued_reason, job_dequeued_reason}

-- A job that waits. `owner` is the work queue of its controller, once that is known.
pub record QueueUnit : Type 0 where
  pub uid : String
  pub kind : String
  pub namespace : String
  pub name : String
  pub tenant : String
  pub status : JobStatus
  pub owner : Option String

-- A queue, by the uid of its units.
abbrev pub Queue : Type 0
Queue = List (String × QueueUnit)

pub record Request : Type 0 where
  pub owner : String
  pub namespace : String
  pub name : String

-- `added` are the requests handed to the controllers so far.
pub record State : Type 0 where
  pub queues : List (String × Queue)
  pub index : List (String × String)
  pub added : List Request

-- The state after a call, or a nil dereference.
pub data Outcome : Type 0 where
  ok : State → Outcome
  panics : Outcome

abbrev pub key : QueueUnit → String
key u = u.kind <> "/" <> u.namespace <> "/" <> u.name

-- QueueStateMarker. Whether the patch of the job goes through changes nothing here.
unfoldable pub mark : ℕ → String → QueueUnit → QueueUnit
mark now reason u =
    let msg =
      if str_eq reason job_dequeued_reason
      then "Job " <> key u <> " is being dequeued and waiting for reconciling."
      else "Job " <> key u <> " is queuing and waiting for being scheduled." in
    record u { status = update_job_conditions now u.status queuing reason msg }

-- The critical section of initializeNewQueue.
unfoldable pub initialize_new_queue : QueueUnit → State → State
initialize_new_queue u s = record s {
  queues = if has_key u.tenant s.queues then s.queues else insert u.tenant [] s.queues;
  index = insert u.uid u.tenant s.index;
}

-- The critical section of addNewQueueUnit. `add` and `update` of a queue both set the unit.
unfoldable pub add_new_queue_unit : QueueUnit → State → Outcome
add_new_queue_unit u s = elim (lookup u.tenant s.queues) [
  | none ↦ panics
  | some q ↦ ok (record s { queues = insert u.tenant (insert u.uid u q) s.queues })
]

-- EnqueueOrUpdate. The name of the tenant comes from the tenant plugin.
unfoldable pub enqueue_or_update : (QueueUnit → String) → ℕ → QueueUnit → State → Outcome
enqueue_or_update tenant_name now u s =
    let named : QueueUnit = record u { tenant = tenant_name u } in
    add_new_queue_unit (mark now job_enqueued_reason named) (initialize_new_queue named s)

-- The critical section of popQueueUnitFromQueue, with the unit, if the uid is indexed and the queue
-- holds it.
unfoldable pub pop_queue_unit_from_queue : String → State → Option QueueUnit × Outcome
pop_queue_unit_from_queue uid s = elim (lookup uid s.index) [
  | none ↦ (none, ok s)
  | some t ↦ elim (lookup t s.queues) [
    | none ↦ (none, panics)
    | some q ↦ (
      lookup uid q,
      ok (record s { queues = insert t (delete uid q) s.queues; index = delete uid s.index }),
    )
  ]
]

-- What Dequeue does with the unit: nothing without one, and an owner that is not known yet is a nil
-- pointer. The popped unit is marked as dequeued too, but no queue holds it any more.
abbrev pub hand_over : Option QueueUnit → Outcome → Outcome
hand_over u panics = panics
hand_over none (ok s) = ok s
hand_over (some u) (ok s) = elim u.owner [
  | none ↦ panics
  | some o ↦
      let request : Request = record { owner = o; namespace = u.namespace; name = u.name } in
      ok (record s { added = s.added ++ request ∷ [] })
]

unfoldable pub dequeue : String → State → Outcome
dequeue uid s = hand_over (pop_queue_unit_from_queue uid s).0 (pop_queue_unit_from_queue uid s).1

-- SetQueueUnitOwner.
unfoldable pub set_queue_unit_owner : String → String → State → Outcome
set_queue_unit_owner uid owner s = elim (lookup uid s.index) [
  | none ↦ ok s
  | some t ↦ elim (lookup t s.queues) [
    | none ↦ panics
    | some q ↦ elim (lookup uid q) [
      | none ↦ panics
      | some u ↦
          let owned : QueueUnit = record u { owner = some owner } in
          ok (record s { queues = insert t (insert u.uid owned q) s.queues })
    ]
  ]
]

-- IsQueuing. A missing queue is a nil dereference.
unfoldable pub is_queuing : String → State → Option Bool
is_queuing uid s = elim (lookup uid s.index) [
  | none ↦ some false
  | some t ↦ elim (lookup t s.queues) [ none ↦ none | some q ↦ some (has_key uid q) ]
]

-- roundRobinSelector. `last` is lastSelectedIndex plus one.
pub record Selector : Type 0 where
  pub queue_names : List String
  pub last : ℕ

unfoldable pub has_name : List String → String → Bool
has_name [] n = false
has_name (m ∷ ms) n = let rest = has_name ms n in if str_eq m n then true else rest

-- appendNewQueues: the names of the map that the list of before does not have.
unfoldable pub append_new_queues : List String → List String → List String
append_new_queues current [] = []
append_new_queues current (n ∷ ns) =
    let rest = append_new_queues current ns in if has_name current n then rest else n ∷ rest

unfoldable pub queues_changed : List String → List String → Bool
queues_changed names keys = length names == 0 || not (length names == length keys)

unfoldable pub nth : ℕ → List String → Option String
nth i [] = none
nth zero (x ∷ xs) = some x
nth (suc i) (x ∷ xs) = nth i xs

-- Next, with the name of the selected queue, if there is one. `keys` are those of the map.
unfoldable pub next_queue : List String → Selector → Option String × Selector
next_queue keys w =
    let names =
      if queues_changed w.queue_names keys
      then w.queue_names ++ append_new_queues w.queue_names keys
      else w.queue_names in
    if length names == 0
    then (none, record w { queue_names = names })
    else (nth (w.last % length names) names, record { queue_names = names; last = w.last + 1 })

-- The codes that a plugin answers.
pub data Code : Type 0 where
  success plugin_error unschedulable wait skip : Code

abbrev pub passes : Code → Bool
passes success = true
passes skip = true
passes _ = false

unfoldable pub all_pass : List (QueueUnit → Code) → QueueUnit → Bool
all_pass [] u = true
all_pass (f ∷ fs) u = passes (f u) && all_pass fs u

-- isQueueUnitAcceptable. Without filter plugins the prefilter plugins are not asked.
unfoldable pub is_queue_unit_acceptable :
    List (QueueUnit → Code) → List (QueueUnit → Code) → QueueUnit → Bool
is_queue_unit_acceptable prefilters filters u = elim filters [
  | [] ↦ true
  | f ∷ fs ↦ if all_pass prefilters u then all_pass (f ∷ fs) u else false
]

-- A score plugin answers a score, or fails.
abbrev pub or_nothing : Option ℤ → ℤ
or_nothing none = pos 0
or_nothing (some n) = n

unfoldable pub prioritize_queue_unit : List (QueueUnit → Option ℤ) → QueueUnit → ℤ
prioritize_queue_unit [] u = pos 0
prioritize_queue_unit (f ∷ fs) u = add_ℤ (or_nothing (f u)) (prioritize_queue_unit fs u)

pub record Scored : Type 0 where
  pub unit : QueueUnit
  pub score : ℤ

-- The loop of selectQueueUnit. `coin` says whether the number drawn at a candidate of the highest
-- score so far is 0.
unfoldable pub select_from : (ℕ → Bool) → ℕ → Scored → List Scored → Scored
select_from coin i best [] = best
select_from coin i best (c ∷ cs) =
    let next =
      if ltb_ℤ best.score c.score
      then c
      else if ltb_ℤ c.score best.score
      then best
      else if coin i
      then c
      else best in
    select_from coin (i + 1) next cs

-- selectQueueUnit. The caller has at least one candidate.
abbrev pub select_queue_unit : (ℕ → Bool) → List Scored → Option Scored
select_queue_unit coin [] = none
select_queue_unit coin (c ∷ cs) = some (select_from coin 1 c cs)
