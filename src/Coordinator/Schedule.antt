-- ===== src/Coordinator/Schedule.antt =====
-- The scheduling cycle of the coordinator: `schedule`, and that the unit it dequeues is the best.
use kubedl.Prelude.{
  ℕ, String, Bool, ◌&&◌, Option, none, some, List, [], ◌∷◌, map, is_some, if◌then◌else◌,
}
use kubedl.Prelude.Int.{ℤ}
use kubedl.Prelude.Map.{lookup, insert}
use kubedl.Conditions.{is_enqueued, job_enqueued_reason}
use kubedl.Coordinator.{
  QueueUnit, Queue, State, Outcome, ok, mark, dequeue, Selector, next_queue, Code,
  is_queue_unit_acceptable, prioritize_queue_unit, Scored, select_queue_unit,
}

pub record Plugins : Type 0 where
  pub prefilters : List (QueueUnit → Code)
  pub filters : List (QueueUnit → Code)
  pub scores : List (QueueUnit → Option ℤ)

-- A unit of the snapshot that has an owner is marked as enqueued if it is not. The snapshot shares
-- the statuses with the queue.
unfoldable pub mark_owned : ℕ → QueueUnit → QueueUnit
mark_owned now u =
    let marked = mark now job_enqueued_reason u in
    if is_some u.owner then (if is_enqueued u.status then u else marked) else u

unfoldable pub mark_queue : ℕ → Queue → Queue
mark_queue now [] = []
mark_queue now ((i, u) ∷ q) = (i, mark_owned now u) ∷ mark_queue now q

-- The loop over the snapshot: the units that have an owner and are acceptable, with their scores.
unfoldable pub candidates : Plugins → Queue → List Scored
candidates ps [] = []
candidates ps ((i, u) ∷ q) =
    let rest = candidates ps q in
    let scored : Scored = record { unit = u; score = prioritize_queue_unit ps.scores u } in
    if is_some u.owner && is_queue_unit_acceptable ps.prefilters ps.filters u
    then scored ∷ rest
    else rest

abbrev pub dequeue_selected : Option Scored → State → Outcome
dequeue_selected none s = ok s
dequeue_selected (some c) s = dequeue c.unit.uid s

-- schedule. What the pre-dequeue plugins note down is theirs.
unfoldable pub schedule : Plugins → (ℕ → Bool) → ℕ → Selector → State → Selector × Outcome
schedule ps coin now w s =
    let names = map (λ (e : String × Queue). e.0) s.queues in
    let cycle = elim (next_queue names w).0 as (λ x. Outcome) [
      | none ↦ ok s
      | some name ↦ elim (lookup name s.queues) [
        | none ↦ ok s
        | some q ↦
            let marked = mark_queue now q in
            dequeue_selected (select_queue_unit coin (candidates ps marked))
              (record s { queues = insert name marked s.queues })
      ]
    ] in
    ((next_queue names w).1, cycle)
