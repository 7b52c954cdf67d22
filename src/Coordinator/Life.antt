-- ===== src/Coordinator/Life.antt =====
-- The life of a job in the coordinator: it is enqueued, gets its owner, and is dequeued.
use kubedl.Prelude.{
  ℕ, String, true, false, Option, none, some, [], ◌∷◌, ◌++◌, ◌≡◌, refl, ap, ◌∙◌, arith, str_eq,
  str_eq_iff, str_eq_refl, is_some, if◌then◌else◌, some_rule, none_rule, Option-cases, inl, inr,
}
use kubedl.Prelude.Map.{lookup, insert, delete, has_key, lookup-delete}
use kubedl.Coordinator.{
  QueueUnit, Queue, Request, State, Outcome, ok, panics, mark, enqueue_or_update,
  pop_queue_unit_from_queue, hand_over, dequeue, set_queue_unit_owner, is_queuing,
}
use kubedl.Coordinator.Index.{
  in_queue, find, IsIndexed, Sets, Sets-IsIndexed, in_queue-insert, Succeeds, succeeds, enqueued,
  enqueue-Sets, owner-Sets, queue_of,
}

abbrev pub request_of : QueueUnit → String → Request
request_of u owner = record { owner = owner; namespace = u.namespace; name = u.name }

-- What taking a unit out of the queue of a tenant makes of every look-up, and the request that is
-- handed to its owner.
pub record Removes (t uid : String) (request : Request) (s s' : State) : Type 0 where
  pub index : (v : String) → lookup v s'.index ≡ (if str_eq uid v then none else lookup v s.index)
  pub units :
      (t' v : String)
      → find s' t' v
        ≡ (if str_eq t t' then (if str_eq uid v then none else find s t' v) else find s t' v)
  pub added : s'.added ≡ s.added ++ request ∷ []

Removes-IsIndexed :
    (t uid : String) (r : Request) (s s' : State)
    → Removes t uid r s s'
    → lookup uid s.index ≡ some t
    → IsIndexed s
    → IsIndexed s'
Removes-IsIndexed t uid r s s' e k v = record {
  held = λ w t' h.
      ground (arith, e.index w, e.units t' w, v.held w t', str_eq_iff uid w, str_eq_iff t t');
  indexed = λ w t' h.
      ground (arith, e.index w, e.units t' w, v.indexed w t', k, str_eq_iff uid w, str_eq_iff t t');
  own = λ w t' u h. ground (arith, e.units t' w, v.own w t' u, str_eq_iff uid w, str_eq_iff t t');
}

taken_units :
    (t uid : String) (s : State) (q : Queue)
    → lookup t s.queues ≡ some q
    → (t' v : String)
    → in_queue (lookup t' (insert t (delete uid q) s.queues)) v
      ≡ (if str_eq t t' then (if str_eq uid v then none else find s t' v) else find s t' v)
taken_units t uid s q e t' v = ground (
  arith,
  in_queue-insert t t' v (delete uid q) s.queues,
  lookup-delete uid v q,
  str_eq_iff t t',
  e,
)

hand_over-Removes :
    (t uid o : String) (u : QueueUnit) (s s' : State) (w : Option QueueUnit)
    → w ≡ some u
    → u.owner ≡ some o
    → ((v : String) → lookup v s'.index ≡ (if str_eq uid v then none else lookup v s.index))
    → ((t' v : String)
        → find s' t' v
          ≡ (if str_eq t t' then (if str_eq uid v then none else find s t' v) else find s t' v))
    → s'.added ≡ s.added
    → Succeeds (Removes t uid (request_of u o) s) (hand_over w (ok s'))
hand_over-Removes t uid o u s s' none e f i n a = absurd (cc)
hand_over-Removes t uid o u s s' (some w) e f i n a =
    some_rule (Succeeds (Removes t uid (request_of u o) s)) w.owner o _ _ (ground (arith, e, f))
      (succeeds (record { index = i; units = n; added = ground (arith, a, e) }))

dequeue-Removes :
    (uid t o : String) (u : QueueUnit) (s : State)
    → lookup uid s.index ≡ some t
    → find s t uid ≡ some u
    → u.owner ≡ some o
    → Succeeds (Removes t uid (request_of u o) s) (dequeue uid s)
unfolding dequeue pop_queue_unit_from_queue
dequeue-Removes uid t o u s e f k =
    let (q, (g, h)) = queue_of s t uid u f in
    let P = λ (x : Option QueueUnit × Outcome).
      Succeeds (Removes t uid (request_of u o) s) (hand_over x.0 x.1) in
    some_rule P (lookup uid s.index) t _ _ e (
      some_rule P (lookup t s.queues) q _ _ g (
        hand_over-Removes t uid o u s
          (record s { queues = insert t (delete uid q) s.queues; index = delete uid s.index })
          (lookup uid q) h k (λ v. lookup-delete uid v s.index) (taken_units t uid s q g) refl))

abbrev pub and_then : Outcome → (State → Outcome) → Outcome
and_then (ok s) f = f s
and_then panics f = panics

pub and_then-Succeeds :
    (P Q : State → Type 0) (x : Outcome) (f : State → Outcome)
    → Succeeds P x
    → ((s : State) → P s → Succeeds Q (f s))
    → Succeeds Q (and_then x f)
and_then-Succeeds P Q (ok s) f (succeeds p) k = k s p
and_then-Succeeds P Q panics f p k = elim p [ ]

pub map_success :
    {P Q : State → Type 0} (x : Outcome) → ((s : State) → P s → Q s) → Succeeds P x → Succeeds Q x
map_success (ok s) f (succeeds p) = succeeds (f s p)
map_success panics f p = elim p [ ]

pub indexed_busy :
    (uid t : String) (s : State)
    → lookup uid s.index ≡ some t
    → is_some (find s t uid) ≡ true
    → is_queuing uid s ≡ some true
unfolding is_queuing has_key
indexed_busy uid t s e f =
    some_rule (λ x. x ≡ some true) (lookup uid s.index) t _ _ e (ground (arith, f))

unindexed_idle :
    (uid : String) (s : State) → lookup uid s.index ≡ none → is_queuing uid s ≡ some false
unfolding is_queuing
unindexed_idle uid s e = none_rule (λ x. x ≡ some false) (lookup uid s.index) _ _ e refl

-- The state after a job has been enqueued.
pub record Waits (uid : String) (s : State) : Type 0 where
  pub well : IsIndexed s
  pub waiting : is_queuing uid s ≡ some true

-- Enqueuing a job, new or known under the same tenant, never panics; the index and the queues agree
-- afterwards if they did before, and the job is queuing.
pub enqueue_or_update-Waits :
    (tenant_name : QueueUnit → String) (now : ℕ) (u : QueueUnit) (s : State)
    → IsIndexed s
    → ((t : String) → lookup u.uid s.index ≡ some t → t ≡ tenant_name u)
    → Succeeds (Waits u.uid) (enqueue_or_update tenant_name now u s)
unfolding mark
enqueue_or_update-Waits tenant_name now u s v k =
    map_success (enqueue_or_update tenant_name now u s)
      (λ s' e. record {
        well = Sets-IsIndexed (tenant_name u) (enqueued tenant_name now u) s s' e k v;
        waiting =
            indexed_busy u.uid (tenant_name u) s' (ground (arith, e.index u.uid, str_eq_refl u.uid))
              (ground (
                arith,
                e.units (tenant_name u) u.uid,
                str_eq_refl u.uid,
                str_eq_refl (tenant_name u),
              ));
      })
      (enqueue-Sets tenant_name now u s)

-- The state after a job has passed through.
pub record Passed (uid : String) (request : Request) (s s' : State) : Type 0 where
  pub well : IsIndexed s'
  pub gone : is_queuing uid s' ≡ some false
  pub index : (v : String) → lookup v s'.index ≡ lookup v s.index
  pub units : (t v : String) → find s' t v ≡ find s t v
  pub added : s'.added ≡ s.added ++ request ∷ []

module _ (uid t : String) (r : Request) (u₁ u₂ : QueueUnit) (s s₁ s₂ s₃ : State) (v : IsIndexed s)
    (n : lookup uid s.index ≡ none) (same₁ : u₁.uid ≡ uid) (same₂ : u₂.uid ≡ uid)
    (e : Sets t u₁ s s₁) (d : Sets t u₂ s₁ s₂) (f : Removes t uid r s₂ s₃) where
  absent : find s t uid ≡ none
  absent = elim (Option-cases (find s t uid)) [
    | inl a ↦ a
    | inr (u, a) ↦ absurd (ground (arith, v.indexed uid t, n, a))
  ]

  through-Passed : IsIndexed s₃ → Passed uid r s s₃
  through-Passed w = record {
    well = w;
    gone = unindexed_idle uid s₃ (ground (arith, f.index uid, str_eq_refl uid));
    index = λ x. ground (arith, f.index x, d.index x, e.index x, str_eq_iff uid x, n, same₁, same₂);
    units = λ t' x. ground (
      arith,
      f.units t' x,
      d.units t' x,
      e.units t' x,
      str_eq_iff uid x,
      str_eq_iff t t',
      absent,
      same₁,
      same₂,
    );
    added = f.added ∙ ap (λ xs. xs ++ r ∷ []) (d.added ∙ e.added);
  }

-- A job that is not queuing and is enqueued, given an owner and dequeued is handed to that owner by
-- one request; no call panics, the job is not queuing any more, and every look-up in the index and
-- in the queues is as before.
pub enqueue-set_owner-dequeue :
    (tenant_name : QueueUnit → String) (now : ℕ) (u : QueueUnit) (owner : String) (s : State)
    → IsIndexed s
    → lookup u.uid s.index ≡ none
    → Succeeds (Passed u.uid (request_of u owner) s) (
        and_then
          (enqueue_or_update tenant_name now u s)
          (λ s₁. and_then (set_queue_unit_owner u.uid owner s₁) (dequeue u.uid)))
unfolding mark
enqueue-set_owner-dequeue tenant_name now u owner s v n =
    let t = tenant_name u in
    let u₁ = enqueued tenant_name now u in
    let u₂ : QueueUnit = record u₁ { owner = some owner } in
    and_then-Succeeds (Sets t u₁ s) _ _ _ (enqueue-Sets tenant_name now u s) (λ s₁ e.
      let v₁ = Sets-IsIndexed t u₁ s s₁ e (λ t' h. absurd (cc)) v in
      let i₁ : lookup u.uid s₁.index ≡ some t = ground (arith, e.index u.uid, str_eq_refl u.uid) in
      let f₁ : find s₁ t u.uid ≡ some u₁ =
        ground (arith, e.units t u.uid, str_eq_refl u.uid, str_eq_refl t) in
      and_then-Succeeds (Sets t u₂ s₁) _ _ _ (owner-Sets u.uid owner s₁ t u₁ v₁ i₁ f₁) (λ s₂ d.
        let v₂ = Sets-IsIndexed t u₂ s₁ s₂ d (λ t' h. ground (arith, i₁, h)) v₁ in
        let i₂ : lookup u.uid s₂.index ≡ some t =
          ground (arith, d.index u.uid, str_eq_refl u.uid) in
        let f₂ : find s₂ t u.uid ≡ some u₂ =
          ground (arith, d.units t u.uid, str_eq_refl u.uid, str_eq_refl t) in
        map_success (dequeue u.uid s₂)
          (λ s₃ f.
            through-Passed u.uid t (request_of u owner) u₁ u₂ s s₁ s₂ s₃ v n refl refl e d f
              (Removes-IsIndexed t u.uid (request_of u owner) s₂ s₃ f i₂ v₂))
          (dequeue-Removes u.uid t owner u₂ s₂ i₂ f₂ refl)))
