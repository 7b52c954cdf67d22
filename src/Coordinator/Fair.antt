-- ===== src/Coordinator/Fair.antt =====
-- The round-robin selector visits every queue.
use kubedl.Prelude.{
  ℕ, zero, suc, ◌+◌, ◌-◌, ◌%◌, ◌<◌, String, true, false, Option, List, [], ◌∷◌, ◌≡◌, refl, sym, ap,
  ◌∙◌, arith, leb, Bool-cases, inl, inr, is_some, length,
}
use native.Mathlib.Nat.{mod-add-mod, mod-eq_of_lt, add-mod_right, mod-lt}
use kubedl.Coordinator.{Selector, queues_changed, nth, next_queue}

-- The selector after a number of calls, with the queues staying the same.
abbrev pub after : List String → ℕ → Selector → Selector
after keys zero w = w
after keys (suc n) w = after keys n (next_queue keys w).1

-- The selector knows as many queues as there are, and there is at least one.
pub record IsUpToDate (keys : List String) (w : Selector) : Type 0 where
  pub some_queue : 0 < length w.queue_names
  pub all : length w.queue_names ≡ length keys

next_step :
    (keys : List String) (w : Selector)
    → IsUpToDate keys w
    → next_queue keys w ≡ (
      nth (w.last % length w.queue_names) w.queue_names,
      record { queue_names = w.queue_names; last = w.last + 1 },
    )
unfolding next_queue queues_changed
next_step keys w v = ground (arith, v.some_queue, v.all)

after_names :
    (keys : List String) (n : ℕ) (w : Selector)
    → IsUpToDate keys w
    → ((after keys n w).queue_names ≡ w.queue_names) × ((after keys n w).last ≡ w.last + n)
after_names keys zero w v = (refl, omega arith)
after_names keys (suc n) w v =
    let w' : Selector = record { queue_names = w.queue_names; last = w.last + 1 } in
    let ih = after_names keys n w' (record { some_queue = v.some_queue; all = v.all }) in
    rw (after, next_step keys w v) (ih.0, omega (arith, ih.1))

-- Some number of steps below `n` turns the position to `i`.
turns : (a n i : ℕ) → i < n → (k : ℕ) × ((k < n) × ((a + k) % n ≡ i))
turns a n i h = elim (Bool-cases (leb (a % n) i)) [
  | inl b ↦ (
    i - a % n,
    (
      ground arith,
      sym (mod-add-mod a n (i - a % n)) ∙ (ap (λ x. x % n) (ground arith) ∙ mod-eq_of_lt h),
    ),
  )
  | inr b ↦ (
    n - a % n + i,
    (
      omega (arith, over b),
      sym (mod-add-mod a n (n - a % n + i))
          ∙ (ap (λ x. x % n) (omega (arith, mod-lt a {m = n} (omega (arith, h))))
              ∙ (add-mod_right i n ∙ mod-eq_of_lt h)),
    ),
  )
]
  where
    over : leb (a % n) i ≡ false → i < a % n
    over b = ground arith

nth_in : (i : ℕ) (names : List String) → i < length names → is_some (nth i names) ≡ true
unfolding nth
nth_in i [] h = absurd (omega arith)
nth_in zero (x ∷ xs) h = refl
nth_in (suc i) (x ∷ xs) h = nth_in i xs (omega arith)

-- As long as no queue is added, every queue that the selector knows is selected within as many
-- calls as there are queues.
pub next_queue_fair :
    (keys : List String) (w : Selector) (i : ℕ)
    → IsUpToDate keys w
    → i < length w.queue_names
    → (k : ℕ) × ((k < length w.queue_names)
        × ((is_some (nth i w.queue_names) ≡ true)
            × ((next_queue keys (after keys k w)).0 ≡ nth i w.queue_names)))
next_queue_fair keys w i v h =
    let (k, (below, at)) = turns w.last (length w.queue_names) i h in
    let (names, last) = after_names keys k w v in
    let u : IsUpToDate keys (after keys k w) = record {
      some_queue = rw names v.some_queue;
      all = rw names v.all;
    } in
    (
      k,
      (
        below,
        (
          nth_in i w.queue_names h,
          ap (λ (x : Option String × Selector). x.0) (next_step keys (after keys k w) u)
              ∙ rw (names, last, at) refl,
        ),
      ),
    )
