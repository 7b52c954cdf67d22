-- ===== src/Coordinator/Tests.antt =====
-- One job in an empty coordinator, and two jobs in a queue.
use kubedl.Prelude.{
  ℕ, ◌<◌, String, true, Option, none, some, List, [], ◌∷◌, ◌≡◌, refl, arith, is_some, length, map,
  str_eq, if◌then◌else◌,
}
use kubedl.Prelude.Int.{pos}
use kubedl.Prelude.Map.{lookup, insert, has_key}
use kubedl.Conditions.Tests.{empty_status}
use kubedl.Coordinator.{
  skip, wait, success, QueueUnit, Queue, State, enqueue_or_update, set_queue_unit_owner, dequeue,
  Selector, nth, next_queue, queues_changed, append_new_queues, has_name,
}
use kubedl.Coordinator.Index.{IsIndexed, Succeeds}
use kubedl.Coordinator.Life.{Passed, request_of, and_then, enqueue-set_owner-dequeue}
use kubedl.Api.{type_eq}
use kubedl.Coordinator.Events.{as_created, created_event, created_event-dequeue, Queued}
use kubedl.Conditions.{
  need_enqueue_to_coordinator, update_job_conditions, set_condition, has_condition, any_true,
  get_condition, find_condition, filter_out_condition, is_just_created, get_last_condition,
  last_condition,
}
use kubedl.Coordinator.Schedule.{Plugins, mark_queue, schedule}
use kubedl.Coordinator.Selects.{Picks, schedule-Picks}
use kubedl.Coordinator.Fair.{after, IsUpToDate, next_queue_fair}

program : Unit {0}
unfolding lookup insert has_key nth next_queue queues_changed append_new_queues has_name
program = tt

abbrev unit : String → Option String → QueueUnit
unit uid owner = record {
  uid = uid;
  kind = "TFJob";
  namespace = "default";
  name = uid;
  tenant = "";
  status = empty_status;
  owner = owner;
}

abbrev empty_state : State
empty_state = record { queues = []; index = []; added = [] }

abbrev by_namespace : QueueUnit → String
by_namespace u = u.namespace

empty_state-IsIndexed : IsIndexed empty_state
unfolding program
empty_state-IsIndexed = record {
  held = λ uid t h. absurd (cc);
  indexed = λ uid t h. absurd (cc);
  own = λ uid t u h. absurd (cc);
}

unknown : lookup "a" empty_state.index ≡ none
unfolding program
unknown = refl

enqueue-set_owner-dequeue_example :
    Succeeds (Passed "a" (request_of (unit "a" none) "tfjobs") empty_state) (
      and_then
        (enqueue_or_update by_namespace 3 (unit "a" none) empty_state)
        (λ s. and_then (set_queue_unit_owner "a" "tfjobs" s) (dequeue "a")))
enqueue-set_owner-dequeue_example =
    enqueue-set_owner-dequeue by_namespace 3 (unit "a" none) "tfjobs" empty_state
      empty_state-IsIndexed unknown

abbrev queue : Queue
queue = ("a", unit "a" (some "tfjobs")) ∷ ("b", unit "b" (some "tfjobs")) ∷ []

abbrev two_jobs : State
two_jobs = record {
  queues = ("default", queue) ∷ [];
  index = ("a", "default") ∷ ("b", "default") ∷ [];
  added = [];
}

abbrev selector : Selector
selector = record { queue_names = []; last = 0 }

abbrev plugins : Plugins
plugins = record {
  prefilters = (λ u. skip) ∷ [];
  filters = (λ u. if str_eq u.uid "b" then wait else success) ∷ [];
  scores = (λ u. some (pos 1)) ∷ [];
}

abbrev keys : State → List String
keys s = map (λ (e : String × Queue). e.0) s.queues

names_default : (next_queue (keys two_jobs) selector).0 ≡ some "default"
unfolding program
names_default = refl

queue_there : lookup "default" two_jobs.queues ≡ some queue
unfolding program
queue_there = refl

schedule-Picks_example :
    Picks plugins
      (mark_queue 3 queue)
      (record two_jobs { queues = insert "default" (mark_queue 3 queue) two_jobs.queues })
      (schedule plugins (λ i. true) 3 selector two_jobs).1
schedule-Picks_example =
    schedule-Picks plugins (λ i. true) 3 selector two_jobs "default" queue names_default queue_there

abbrev three : Selector
three = record { queue_names = "x" ∷ "y" ∷ "z" ∷ []; last = 5 }

three-IsUpToDate : IsUpToDate ("z" ∷ "x" ∷ "y" ∷ []) three
three-IsUpToDate = record { some_queue = omega arith; all = refl }

next_queue_fair_example :
    (k : ℕ) × ((k < length three.queue_names)
      × ((is_some (nth 1 three.queue_names) ≡ true)
          × ((next_queue ("z" ∷ "x" ∷ "y" ∷ []) (after ("z" ∷ "x" ∷ "y" ∷ []) k three)).0
              ≡ nth 1 three.queue_names)))
next_queue_fair_example =
    next_queue_fair ("z" ∷ "x" ∷ "y" ∷ []) three 1 three-IsUpToDate (omega arith)

queued : need_enqueue_to_coordinator (as_created 2 (unit "a" none)).status ≡ true
unfolding need_enqueue_to_coordinator update_job_conditions set_condition has_condition any_true
    get_condition find_condition filter_out_condition is_just_created get_last_condition
    last_condition type_eq
queued = refl

created_event-dequeue_example :
    Succeeds
      (Queued "a" empty_state)
      (created_event by_namespace 2 3 true "tfjobs" (unit "a" none) empty_state)
    × Succeeds (Passed "a" (request_of (unit "a" none) "tfjobs") empty_state) (
        and_then
          (created_event by_namespace 2 3 true "tfjobs" (unit "a" none) empty_state)
          (dequeue "a"))
created_event-dequeue_example =
    created_event-dequeue by_namespace 2 3 "tfjobs" (unit "a" none) empty_state
      empty_state-IsIndexed unknown queued
