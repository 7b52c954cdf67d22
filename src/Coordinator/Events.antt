-- ===== src/Coordinator/Events.antt =====
-- pkg/jobcoordinator/eventhandler/eventhandler.go, and OnOwnerCreateFunc and OnOwnerUpdateFunc of
-- pkg/job_controller/eventhandler_helpers.go, which filter the events in front of it. `gate` is
-- whether the feature JobCoordinator is on and there is a coordinator.
use kubedl.Prelude.{
  ℕ, String, Bool, true, false, not, ◌&&◌, Option, none, some, [], ◌∷◌, ◌++◌, ◌≡◌, sym, ap, ◌∙◌,
  arith, str_eq_refl, if◌then◌else◌,
}
use mathlib.Core.Path.{subst}
use kubedl.Prelude.Map.{lookup}
use kubedl.Prelude.Format.{◌<>◌}
use kubedl.Api.{created}
use kubedl.Conditions.{update_job_conditions, need_enqueue_to_coordinator, job_created_reason}
use kubedl.Coordinator.{
  mark, QueueUnit, Request, State, Outcome, ok, panics, enqueue_or_update, dequeue,
  set_queue_unit_owner, is_queuing,
}
use kubedl.Coordinator.Index.{
  IsIndexed, Succeeds, succeeds, Sets, Sets-IsIndexed, find, enqueued, enqueue-Sets, owner-Sets,
}
use kubedl.Coordinator.Life.{
  request_of, and_then, and_then-Succeeds, map_success, indexed_busy, Waits, Passed,
  enqueue_or_update-Waits, enqueue-set_owner-dequeue,
}

-- The object of an event.
pub record Object : Type 0 where
  pub uid : String
  pub namespace : String
  pub name : String

-- q.Add, on the work queue of the name.
abbrev pub add : String → Object → State → State
add q o s =
    let request : Request = record { owner = q; namespace = o.namespace; name = o.name } in
    record s { added = s.added ++ request ∷ [] }

-- shouldSetOwnerQueueAndBreak. IsQueuing may dereference nil.
unfoldable pub should_set_owner_queue_and_break : Bool → String → State → Option Bool
should_set_owner_queue_and_break gate uid s = if gate then is_queuing uid s else some false

abbrev pub own_or_add : String → Object → State → Option Bool → Outcome
own_or_add q o s none = panics
own_or_add q o s (some true) = set_queue_unit_owner o.uid q s
own_or_add q o s (some false) = ok (add q o s)

-- Create.
unfoldable pub create : Bool → String → Object → State → Outcome
create gate q o s = own_or_add q o s (should_set_owner_queue_and_break gate o.uid s)

-- Update.
unfoldable pub update : Bool → String → Object → State → Outcome
update gate q o s = own_or_add q o s (should_set_owner_queue_and_break gate o.uid s)

-- Delete.
unfoldable pub delete : Bool → String → Object → State → Outcome
delete gate q o s = and_then (if gate then dequeue o.uid s else ok s) (λ t. ok (add q o t))

abbrev pub own_or_dequeue : String → Object → State → Option Bool → Outcome
own_or_dequeue q o s none = panics
own_or_dequeue q o s (some true) = set_queue_unit_owner o.uid q s
own_or_dequeue q o s (some false) = dequeue o.uid s

-- Generic.
unfoldable pub generic : Bool → String → Object → State → Outcome
generic gate q o s =
    and_then (if gate then own_or_dequeue q o s (is_queuing o.uid s) else ok s)
      (λ t. ok (add q o t))

-- The job with its Created condition.
abbrev pub as_created : ℕ → QueueUnit → QueueUnit
as_created now u =
    let msg = "Job " <> u.kind <> "/" <> u.name <> " is created." in
    record u { status = update_job_conditions now u.status created job_created_reason msg }

-- What OnOwnerCreateFunc does to the coordinator. It lets every event pass.
unfoldable pub on_owner_create : (QueueUnit → String) → ℕ → ℕ → Bool → QueueUnit → State → Outcome
on_owner_create tenant_name created_at now gate u s =
    let job = as_created created_at u in
    if gate && need_enqueue_to_coordinator job.status
    then enqueue_or_update tenant_name now job s
    else ok s

abbrev pub drop_if_queuing : String → State → Option Bool → Outcome
drop_if_queuing uid s none = panics
drop_if_queuing uid s (some true) = dequeue uid s
drop_if_queuing uid s (some false) = ok s

-- What OnOwnerUpdateFunc does to the coordinator: `changed` is whether the replica specifications or
-- the scheduling policy differ from those before.
unfoldable pub on_owner_update :
    (QueueUnit → String) → ℕ → Bool → Bool → QueueUnit → State → Outcome
on_owner_update tenant_name now gate changed u s =
    if not gate
    then ok s
    else if need_enqueue_to_coordinator u.status
    then (if changed then enqueue_or_update tenant_name now u s else ok s)
    else drop_if_queuing u.uid s (is_queuing u.uid s)

abbrev pub object_of : QueueUnit → Object
object_of u = record { uid = u.uid; namespace = u.namespace; name = u.name }

-- A create event passes the filter and then the handler.
unfoldable pub created_event :
    (QueueUnit → String) → ℕ → ℕ → Bool → String → QueueUnit → State → Outcome
created_event tenant_name created_at now gate q u s =
    and_then (on_owner_create tenant_name created_at now gate u s) (create gate q (object_of u))

waiting_created :
    (q : String) (o : Object) (s : State)
    → is_queuing o.uid s ≡ some true
    → create true q o s ≡ set_queue_unit_owner o.uid q s
unfolding create should_set_owner_queue_and_break
waiting_created q o s h = ap (own_or_add q o s) h

swap-Succeeds :
    (P : State → Type 0) (uid : String) (x : Outcome) (f g h : State → Outcome)
    → Succeeds (Waits uid) x
    → ((s : State) → Waits uid s → g s ≡ f s)
    → Succeeds P (and_then x (λ s. and_then (f s) h))
    → Succeeds P (and_then (and_then x g) h)
swap-Succeeds P uid (ok s) f g h (succeeds w) e k =
    subst (λ x. Succeeds P (and_then x h)) (sym (e s w)) k
swap-Succeeds P uid panics f g h w e k = k

same-Succeeds :
    (P : State → Type 0) (uid : String) (x : Outcome) (f g : State → Outcome)
    → Succeeds (Waits uid) x
    → ((s : State) → Waits uid s → g s ≡ f s)
    → Succeeds P (and_then x f)
    → Succeeds P (and_then x g)
same-Succeeds P uid (ok s) f g (succeeds w) e k = subst (Succeeds P) (sym (e s w)) k
same-Succeeds P uid panics f g w e k = k

-- A job waits at the coordinator, and the work queues are as they were.
pub record Queued (uid : String) (s t : State) : Type 0 where
  pub waiting : is_queuing uid t ≡ some true
  pub nothing_added : t.added ≡ s.added

enqueue-set_owner-Queued :
    (tenant_name : QueueUnit → String) (now : ℕ) (u : QueueUnit) (q : String) (s : State)
    → IsIndexed s
    → lookup u.uid s.index ≡ none
    → Succeeds
        (Queued u.uid s)
        (and_then (enqueue_or_update tenant_name now u s) (set_queue_unit_owner u.uid q))
unfolding mark
enqueue-set_owner-Queued tenant_name now u q s v n =
    let t = tenant_name u in
    let u₁ = enqueued tenant_name now u in
    let u₂ : QueueUnit = record u₁ { owner = some q } in
    and_then-Succeeds (Sets t u₁ s) _ _ _ (enqueue-Sets tenant_name now u s) (λ s₁ e.
      let v₁ = Sets-IsIndexed t u₁ s s₁ e (λ t' h. absurd (cc)) v in
      let i₁ : lookup u.uid s₁.index ≡ some t = ground (arith, e.index u.uid, str_eq_refl u.uid) in
      let f₁ : find s₁ t u.uid ≡ some u₁ =
        ground (arith, e.units t u.uid, str_eq_refl u.uid, str_eq_refl t) in
      map_success (set_queue_unit_owner u.uid q s₁)
        (λ s₂ d. record {
          waiting =
              indexed_busy u.uid t s₂ (ground (arith, d.index u.uid, str_eq_refl u.uid))
                (ground (arith, d.units t u.uid, str_eq_refl u.uid, str_eq_refl t));
          nothing_added = d.added ∙ e.added;
        })
        (owner-Sets u.uid q s₁ t u₁ v₁ i₁ f₁))

-- A job that is not known to the coordinator, and that is to be queued once it has its Created
-- condition, is created: after the event the job waits at the coordinator and no request has been
-- added to a work queue; and when the coordinator dequeues the job afterwards, exactly one request
-- for it goes to the work queue of the controller; nothing panics, and every look-up in the
-- coordinator is then as before.
pub created_event-dequeue :
    (tenant_name : QueueUnit → String) (created_at now : ℕ) (q : String) (u : QueueUnit) (s : State)
    → IsIndexed s
    → lookup u.uid s.index ≡ none
    → need_enqueue_to_coordinator (as_created created_at u).status ≡ true
    → Succeeds (Queued u.uid s) (created_event tenant_name created_at now true q u s)
      × Succeeds
          (Passed u.uid (request_of u q) s)
          (and_then (created_event tenant_name created_at now true q u s) (dequeue u.uid))
unfolding created_event on_owner_create
created_event-dequeue tenant_name created_at now q u s v n h =
    let job = as_created created_at u in
    let enqueuing = enqueue_or_update tenant_name now job s in
    let waits =
      enqueue_or_update-Waits tenant_name now job s v (λ t k. absurd (ground (arith, n, k))) in
    let owns = λ (s₁ : State) (w : Waits u.uid s₁). waiting_created q (object_of u) s₁ w.waiting in
    (
      rw (h) (
          same-Succeeds (Queued u.uid s) u.uid enqueuing (set_queue_unit_owner u.uid q)
            (create true q (object_of u)) waits owns
            (enqueue-set_owner-Queued tenant_name now job q s v n)),
      rw (h) (
          swap-Succeeds (Passed u.uid (request_of u q) s) u.uid enqueuing
            (set_queue_unit_owner u.uid q) (create true q (object_of u)) (dequeue u.uid) waits owns
            (enqueue-set_owner-dequeue tenant_name now job q s v n)),
    )
