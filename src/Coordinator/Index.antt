-- ===== src/Coordinator/Index.antt =====
-- The index and the queues agree: what the calls of the coordinator keep.
use kubedl.Prelude.{
  ℕ, String, true, Option, none, some, List, [], ◌≡◌, refl, arith, str_eq, str_eq_iff, str_eq_refl,
  is_some, if◌then◌else◌, Option-cases, inl, inr, some_rule,
}
use kubedl.Prelude.Map.{lookup, insert, has_key, lookup-insert}
use kubedl.Conditions.{job_enqueued_reason}
use kubedl.Coordinator.{
  QueueUnit, Queue, State, Outcome, ok, mark, initialize_new_queue, add_new_queue_unit,
  enqueue_or_update, set_queue_unit_owner,
}

abbrev pub in_queue : Option Queue → String → Option QueueUnit
in_queue none uid = none
in_queue (some q) uid = lookup uid q

-- The unit that the queue of a tenant holds for a uid.
abbrev pub find : State → String → String → Option QueueUnit
find s t uid = in_queue (lookup t s.queues) uid

-- The index names a tenant for a uid exactly when the queue of the tenant holds a unit for it, and
-- a queue holds a unit under its own uid.
pub record IsIndexed (s : State) : Type 0 where
  pub held : (uid t : String) → lookup uid s.index ≡ some t → is_some (find s t uid) ≡ true
  pub indexed : (uid t : String) → is_some (find s t uid) ≡ true → lookup uid s.index ≡ some t
  pub own : (uid t : String) (u : QueueUnit) → find s t uid ≡ some u → u.uid ≡ uid

-- What setting a unit in the queue of a tenant makes of every look-up.
pub record Sets (t : String) (u : QueueUnit) (s s' : State) : Type 0 where
  pub index :
      (v : String) → lookup v s'.index ≡ (if str_eq u.uid v then some t else lookup v s.index)
  pub units :
      (t' v : String)
      → find s' t' v
        ≡ (if str_eq t t' then (if str_eq u.uid v then some u else find s t' v) else find s t' v)
  pub added : s'.added ≡ s.added

pub Sets-IsIndexed :
    (t : String) (u : QueueUnit) (s s' : State)
    → Sets t u s s'
    → ((t' : String) → lookup u.uid s.index ≡ some t' → t' ≡ t)
    → IsIndexed s
    → IsIndexed s'
Sets-IsIndexed t u s s' e k v = record {
  held = λ uid t' h.
      ground
        (arith, e.index uid, e.units t' uid, v.held uid t', str_eq_iff u.uid uid, str_eq_iff t t');
  indexed = λ uid t' h. ground (
    arith,
    e.index uid,
    e.units t' uid,
    v.indexed uid t',
    k t',
    str_eq_iff u.uid uid,
    str_eq_iff t t',
  );
  own = λ uid t' w h.
      ground (arith, e.units t' uid, v.own uid t' w, str_eq_iff u.uid uid, str_eq_iff t t');
}

-- Look-ups after a queue has been set.
pub in_queue-insert :
    (t t' v : String) (q : Queue) (m : List (String × Queue))
    → in_queue (lookup t' (insert t q m)) v
      ≡ (if str_eq t t' then lookup v q else in_queue (lookup t' m) v)
in_queue-insert t t' v q m = ground (arith, lookup-insert t t' q m)

-- A new queue holds nothing, so making it changes no look-up.
initialize_keeps :
    (u : QueueUnit) (s : State) (t v : String) → find (initialize_new_queue u s) t v ≡ find s t v
unfolding initialize_new_queue has_key lookup
initialize_keeps u s t v = ground (
  arith,
  in_queue-insert u.tenant t v [] s.queues,
  str_eq_iff u.tenant t,
  Option-cases (lookup u.tenant s.queues),
)

initialize_finds :
    (u : QueueUnit) (s : State)
    → (q : Queue) × (lookup u.tenant (initialize_new_queue u s).queues ≡ some q)
unfolding initialize_new_queue has_key
initialize_finds u s = elim (Option-cases (lookup u.tenant s.queues)) [
  | inl e ↦
      ([], ground (arith, e, lookup-insert u.tenant u.tenant [] s.queues, str_eq_refl u.tenant))
  | inr (q, e) ↦ (q, ground (arith, e))
]

set_units :
    (t : String) (u : QueueUnit) (s : State) (q : Queue)
    → lookup t s.queues ≡ some q
    → (t' v : String)
    → in_queue (lookup t' (insert t (insert u.uid u q) s.queues)) v
      ≡ (if str_eq t t' then (if str_eq u.uid v then some u else find s t' v) else find s t' v)
set_units t u s q e t' v = ground (
  arith,
  in_queue-insert t t' v (insert u.uid u q) s.queues,
  lookup-insert u.uid v u q,
  str_eq_iff t t',
  e,
)

-- The call succeeds, with the effect.
pub data Succeeds (P : State → Type 0) : Outcome → Type 0 where
  succeeds : {s : State} → P s → Succeeds P (ok s)

-- The unit as it is enqueued: with the tenant that the plugin names, and marked.
abbrev pub enqueued : (QueueUnit → String) → ℕ → QueueUnit → QueueUnit
enqueued tenant_name now u = mark now job_enqueued_reason (record u { tenant = tenant_name u })

mark_keeps :
    (now : ℕ) (r : String) (u : QueueUnit)
    → ((mark now r u).uid ≡ u.uid) × ((mark now r u).tenant ≡ u.tenant)
unfolding mark
mark_keeps now r u = (refl, refl)

-- Enqueuing a job never panics, and sets its unit in the queue of its tenant and nothing else.
pub enqueue-Sets :
    (tenant_name : QueueUnit → String) (now : ℕ) (u : QueueUnit) (s : State)
    → Succeeds
        (Sets (tenant_name u) (enqueued tenant_name now u) s)
        (enqueue_or_update tenant_name now u s)
unfolding enqueue_or_update add_new_queue_unit mark initialize_new_queue
enqueue-Sets tenant_name now u s =
    let named : QueueUnit = record u { tenant = tenant_name u } in
    let s₁ = initialize_new_queue named s in
    let u' = enqueued tenant_name now u in
    let (q, e) = initialize_finds named s in
    some_rule (Succeeds (Sets (tenant_name u) u' s)) (lookup (tenant_name u) s₁.queues) q _ _ e (
      succeeds (record {
        index = λ v. lookup-insert u.uid v (tenant_name u) s.index;
        units = λ t v.
            ground (arith, set_units (tenant_name u) u' s₁ q e t v, initialize_keeps named s t v);
        added = refl;
      }))

-- The queue of an indexed tenant.
pub queue_of :
    (s : State) (t uid : String) (u : QueueUnit)
    → find s t uid ≡ some u
    → (q : Queue) × ((lookup t s.queues ≡ some q) × (lookup uid q ≡ some u))
queue_of s t uid u f = elim (Option-cases (lookup t s.queues)) [
  | inl e ↦ absurd (ground (arith, e))
  | inr (q, e) ↦ (q, (e, ground (arith, e)))
]

-- Setting the owner of a job that is indexed sets its unit with that owner.
pub owner-Sets :
    (uid owner : String) (s : State) (t : String) (u : QueueUnit)
    → IsIndexed s
    → lookup uid s.index ≡ some t
    → find s t uid ≡ some u
    → Succeeds (Sets t (record u { owner = some owner }) s) (set_queue_unit_owner uid owner s)
unfolding set_queue_unit_owner
owner-Sets uid owner s t u v e f =
    let (q, (g, h)) = queue_of s t uid u f in
    let P = Succeeds (Sets t (record u { owner = some owner }) s) in
    let same = v.own uid t u f in
    some_rule P (lookup uid s.index) t _ _ e (
      some_rule P (lookup t s.queues) q _ _ g (
        some_rule P (lookup uid q) u _ _ h (
          succeeds (record {
            index = λ w. ground (arith, str_eq_iff u.uid w, same, e);
            units = λ t' w. set_units t (record u { owner = some owner }) s q g t' w;
            added = refl;
          }))))
