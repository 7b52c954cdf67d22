-- ===== src/Coordinator/Selects.antt =====
-- Which unit a scheduling cycle dequeues.
use kubedl.Prelude.{
  ℕ, ◌+◌, String, Bool, true, false, some, List, [], ◌∷◌, map, ◌≡◌, refl, sym, ap, ◌∙◌, arith,
  if◌then◌else◌, some_rule, if_rule, inl, inr, ◌⊎◌,
}
use mathlib.Core.Path.{subst}
use mathlib.Core.List.{Memᴰ}
use kubedl.Prelude.Int.{ℤ, ltb_ℤ}
use kubedl.Prelude.Map.{lookup, insert}
use kubedl.Coordinator.{
  QueueUnit, Queue, State, Outcome, ok, dequeue, Selector, next_queue, prioritize_queue_unit,
  Scored, select_from, select_queue_unit,
}
use kubedl.Coordinator.Eligible.{
  IsEligible, score_of, eligible, eligible-IsEligible, of_IsEligible, prioritize_sums,
}
use kubedl.Coordinator.Schedule.{Plugins, mark_queue, candidates, dequeue_selected, schedule}

at_least_trans : (a b c : ℤ) → ltb_ℤ a b ≡ false → ltb_ℤ b c ≡ false → ltb_ℤ a c ≡ false
at_least_trans a b c h k = ground arith

at_least_self : (a : ℤ) → ltb_ℤ a a ≡ false
at_least_self a = ground arith

-- `c` is one of the candidates, and none has a higher score.
record IsBest (c : Scored) (cs : List Scored) : Type 0 where
  listed : Memᴰ c cs
  highest : (d : Scored) → Memᴰ d cs → ltb_ℤ c.score d.score ≡ false

-- The better one of the first two candidates, and the rest.
better_step :
    (c best d next : Scored) (cs : List Scored)
    → (next ≡ best) ⊎ (next ≡ d)
    → ltb_ℤ next.score best.score ≡ false
    → ltb_ℤ next.score d.score ≡ false
    → IsBest c (next ∷ cs)
    → IsBest c (best ∷ d ∷ cs)
better_step c best d next cs which h k v = record {
  listed = listed_in v.listed;
  highest = highest_in;
}
  where
    listed_in : Memᴰ c (next ∷ cs) → Memᴰ c (best ∷ d ∷ cs)
    listed_in (Memᴰ.head e) = elim which [
      | inl b ↦ Memᴰ.head (e ∙ b)
      | inr b ↦ Memᴰ.tail (Memᴰ.head (e ∙ b))
    ]
    listed_in (Memᴰ.tail m) = Memᴰ.tail (Memᴰ.tail m)

    at_next : ltb_ℤ c.score next.score ≡ false
    at_next = v.highest next (Memᴰ.head refl)

    highest_in : (x : Scored) → Memᴰ x (best ∷ d ∷ cs) → ltb_ℤ c.score x.score ≡ false
    highest_in x (Memᴰ.head e) =
        subst (λ (y : Scored). ltb_ℤ c.score y.score ≡ false) (sym e)
          (at_least_trans c.score next.score best.score at_next h)
    highest_in x (Memᴰ.tail (Memᴰ.head e)) =
        subst (λ (y : Scored). ltb_ℤ c.score y.score ≡ false) (sym e)
          (at_least_trans c.score next.score d.score at_next k)
    highest_in x (Memᴰ.tail (Memᴰ.tail m)) = v.highest x (Memᴰ.tail m)

select_from-IsBest :
    (coin : ℕ → Bool) (i : ℕ) (best : Scored) (cs : List Scored)
    → IsBest (select_from coin i best cs) (best ∷ cs)
unfolding select_from
select_from-IsBest coin i best [] = record { listed = Memᴰ.head refl; highest = only }
  where
    only : (d : Scored) → Memᴰ d (best ∷ []) → ltb_ℤ best.score d.score ≡ false
    only d (Memᴰ.head e) =
        subst (λ (y : Scored). ltb_ℤ best.score y.score ≡ false) (sym e) (at_least_self best.score)
    only d (Memᴰ.tail m) = elim m [ ]
select_from-IsBest coin i best (d ∷ cs) =
    better_step _ best d _ cs (ground arith) (ground arith) (ground arith)
      (select_from-IsBest coin (i + 1) _ cs)

abbrev value_of : Plugins → QueueUnit → ℤ
value_of ps u = prioritize_queue_unit ps.scores u

abbrev scored : Plugins → QueueUnit → Scored
scored ps u = record { unit = u; score = value_of ps u }

record IsCandidate (ps : Plugins) (q : Queue) (c : Scored) : Type 0 where
  at : String
  in_queue : Memᴰ (at, c.unit) q
  may : eligible ps c.unit ≡ true
  value : c.score ≡ value_of ps c.unit

module _ (ps : Plugins) where
  candidates_are : (q : Queue) (c : Scored) → Memᴰ c (candidates ps q) → IsCandidate ps q c
  unfolding candidates
  candidates_are [] c m = elim m [ ]
  candidates_are ((i, u) ∷ q) c m = go (eligible ps u) refl m (candidates_are q c)
    where
      later : IsCandidate ps q c → IsCandidate ps ((i, u) ∷ q) c
      later v = record { at = v.at; in_queue = Memᴰ.tail v.in_queue; may = v.may; value = v.value }

      go :
          (b : Bool)
          → eligible ps u ≡ b
          → Memᴰ c (if b then scored ps u ∷ candidates ps q else candidates ps q)
          → (Memᴰ c (candidates ps q) → IsCandidate ps q c)
          → IsCandidate ps ((i, u) ∷ q) c
      go false e n k = later (k n)
      go true e (Memᴰ.tail n) k = later (k n)
      go true e (Memᴰ.head f) k = record {
        at = i;
        in_queue = Memᴰ.head (ap (λ (x : Scored). (i, x.unit)) f);
        may = subst (λ (x : Scored). eligible ps x.unit ≡ true) (sym f) e;
        value = subst (λ (x : Scored). x.score ≡ value_of ps x.unit) (sym f) refl;
      }

  eligible_listed :
      (q : Queue) (i : String) (u : QueueUnit)
      → Memᴰ (i, u) q
      → eligible ps u ≡ true
      → Memᴰ (scored ps u) (candidates ps q)
  unfolding candidates
  eligible_listed [] i u m e = elim m [ ]
  eligible_listed ((j, w) ∷ q) i u (Memᴰ.head f) e =
      let same : u ≡ w = ap (λ (x : String × QueueUnit). x.1) f in
      if_rule (λ xs. Memᴰ (scored ps u) xs) (eligible ps w) (λ k. Memᴰ.head (ap (scored ps) same))
        (λ k. absurd (ground (arith, e, k, same)))
  eligible_listed ((j, w) ∷ q) i u (Memᴰ.tail m) e =
      let rest = eligible_listed q i u m e in
      if_rule (λ xs. Memᴰ (scored ps u) xs) (eligible ps w) (λ k. Memᴰ.tail rest) (λ k. rest)

-- The outcome of a cycle on a queue: nothing where no unit is eligible, and otherwise an eligible
-- unit, such that no eligible one has a higher score, is dequeued.
pub data Picks (ps : Plugins) (q : Queue) (s : State) : Outcome → Type 0 where
  idle : ((i : String) (u : QueueUnit) → Memᴰ (i, u) q → ¬ IsEligible ps u) → Picks ps q s (ok s)
  picks :
      (i : String) (u : QueueUnit)
      → Memᴰ (i, u) q
      → IsEligible ps u
      → ((j : String) (w : QueueUnit)
          → Memᴰ (j, w) q
          → IsEligible ps w
          → ltb_ℤ (score_of ps u) (score_of ps w) ≡ false)
      → Picks ps q s (dequeue u.uid s)

cycle_outcome :
    (ps : Plugins) (q : Queue) (s : State) (coin : ℕ → Bool) (cs : List Scored)
    → candidates ps q ≡ cs
    → Picks ps q s (dequeue_selected (select_queue_unit coin cs) s)
cycle_outcome ps q s coin [] e = idle (λ i u m v.
    nothing
      (subst (λ cs. Memᴰ (scored ps u) cs) e (eligible_listed ps q i u m (of_IsEligible ps u v))))
  where
    nothing : {c : Scored} → Memᴰ c [] → ⊥
    nothing m = elim m [ ]
cycle_outcome ps q s coin (c ∷ cs) e =
    let best = select_from coin 1 c cs in
    let v = select_from-IsBest coin 1 c cs in
    let w = candidates_are ps q best (subst (λ xs. Memᴰ best xs) (sym e) v.listed) in
    picks w.at best.unit w.in_queue (eligible-IsEligible ps best.unit w.may) (λ j x m h.
      let may = of_IsEligible ps x h in
      let best_is : best.score ≡ score_of ps best.unit =
        w.value ∙ prioritize_sums ps.scores best.unit in
      subst (λ n. ltb_ℤ n (score_of ps x) ≡ false) best_is
        (subst (λ n. ltb_ℤ best.score n ≡ false) (prioritize_sums ps.scores x)
          (v.highest (scored ps x)
            (subst (λ xs. Memᴰ (scored ps x) xs) e (eligible_listed ps q j x m may)))))

-- A scheduling cycle on the queue that the selector names dequeues one of its eligible units, such
-- that no eligible unit has a higher sum of what the score plugins answer, or it dequeues nothing
-- where there is no eligible unit; whatever numbers are drawn. Eligible are the units that have an
-- owner and that every filter accepts, and every prefilter too if there is any filter.
pub schedule-Picks :
    (ps : Plugins) (coin : ℕ → Bool) (now : ℕ) (w : Selector) (s : State) (name : String)
    (q : Queue)
    → (next_queue (map (λ (e : String × Queue). e.0) s.queues) w).0 ≡ some name
    → lookup name s.queues ≡ some q
    → Picks ps
        (mark_queue now q)
        (record s { queues = insert name (mark_queue now q) s.queues })
        (schedule ps coin now w s).1
unfolding schedule
schedule-Picks ps coin now w s name q e f =
    let s' : State = record s { queues = insert name (mark_queue now q) s.queues } in
    let P = Picks ps (mark_queue now q) s' in
    some_rule P (next_queue (map (λ (x : String × Queue). x.0) s.queues) w).0 name _ _ e (
      some_rule P (lookup name s.queues) q _ _ f
        (cycle_outcome ps (mark_queue now q) s' coin (candidates ps (mark_queue now q)) refl))
