-- ===== src/Cron/Due.antt =====
-- Which time is due.
use kubedl.Prelude.{
  ℕ, zero, suc, ◌+◌, ◌-◌, ◌*◌, ◌/◌, ◌%◌, ◌≤◌, ◌<◌, Option, some, ◌≡◌, refl, sym, ap, ◌∙◌, arith,
  ltb, if_rule,
}
use native.Mathlib.Nat.{div-add-mod', mod-lt, mul_assoc}
use kubedl.Cron.{second, Recent, none_due, due, extrapolate, get_most_recent_schedule_time, advance}

-- The result for a schedule whose first two times are `a` and `b`: nothing before `a`, and from
-- then on the latest time not after `now` on the grid of the two, with its number on it.
pub data IsLatest (a b now : ℕ) : Recent → Type 0 where
  not_yet : now < a → IsLatest a b now none_due
  latest :
      {t n : ℕ}
      → 1 ≤ n
      → t ≡ a + (n - 1) * (b - a)
      → t ≤ now
      → now < t + (b - a)
      → IsLatest a b now (due t n)

-- The arithmetic of the grid, for times on whole seconds: `q` is the number of the step.
on_grid :
    (a d e q r now : ℕ)
    → q * d + r ≡ e
    → r < d
    → e ≡ (now - a * second) / second
    → a * second ≤ now
    → ((a + q * d) * second ≤ now) × (now < (a + q * d) * second + d * second)
on_grid a d e q r now h k l m = (omega arith, omega arith)

-- The distance of two times on whole seconds, rounded to seconds, is exact.
exact_delta : (a b : ℕ) → a < b → (b * second - a * second + 500000000) / second ≡ b - a
exact_delta a b h = omega arith

whole : (a : ℕ) → a * second / second ≡ a
whole a = omega arith

-- The step `q` of the grid in nanoseconds.
step_time :
    (a b q : ℕ) → a < b → (a + q * (b - a)) * second ≡ a * second + q * (b * second - a * second)
step_time a b q h =
    let s : (b * second - a * second) ≡ (b - a) * second = omega arith in
    rw (s, sym (mul_assoc q (b - a) second)) (omega arith)

grid-IsLatest :
    (a b now q : ℕ)
    → a < b
    → ((a + q * (b - a)) * second ≤ now) × (now < (a + q * (b - a)) * second + (b - a) * second)
    → IsLatest (a * second) (b * second) now (due ((a + (q + 1 - 1) * (b - a)) * second) (q + 1))
grid-IsLatest a b now q h g =
    let e : q + 1 - 1 ≡ q = omega arith in
    let s : (b * second - a * second) ≡ (b - a) * second = omega arith in
    latest (omega arith) (rw (e) (step_time a b q h)) (rw (e) (g.0)) (rw (e, s) (g.1))

-- The loop ends when the schedule moves on: as much fuel is enough as there are nanoseconds left.
advance_ends :
    (next : ℕ → ℕ)
    → ((t : ℕ) → t < next t)
    → (f now t : ℕ) → now < t + f
    → (u : ℕ) × (advance (suc f) next now t ≡ some u) × (now < u)
unfolding advance
advance_ends next g zero now t h =
    if_rule (λ r. (u : ℕ) × (r ≡ some u) × (now < u)) (ltb now t) (λ l. (t, refl, omega arith))
      (λ l. absurd (ground arith))
advance_ends next g (suc f) now t h =
    let step = g t in
    let rest = advance_ends next g f now (next t) (omega arith) in
    if_rule (λ r. (u : ℕ) × (r ≡ some u) × (now < u)) (ltb now t) (λ l. (t, refl, ground arith))
      (λ l. rest)

-- A result there is, and it is as it should be.
abbrev pub Finds : (Recent → Type 0) → Option Recent → Type 0
Finds P r = (x : Recent) × (r ≡ some x) × P x

extrapolate-IsLatest :
    (next : ℕ → ℕ)
    → ((t : ℕ) → t < next t)
    → (a b now f : ℕ) → a < b
    → b * second ≤ now
    → now < b * second + f
    → Finds
        (IsLatest (a * second) (b * second) now)
        (extrapolate (suc f) next (a * second) (b * second) now)
unfolding extrapolate
extrapolate-IsLatest next up a b now f h k enough =
    let d = b - a in
    let e = (now - a * second) / second in
    let g =
      on_grid a d e (e / d) (e % d) now (div-add-mod' e d) (mod-lt e (omega arith)) refl
        (omega arith) in
    let ends = advance_ends next up f now (b * second) enough in
    rw (ends.1, exact_delta a b h, whole a)
      (if_rule (Finds (IsLatest (a * second) (b * second) now)) (ltb d 1)
        (λ l. absurd (ground arith)) (λ l. (_, refl, grid-IsLatest a b now (e / d) h g)))

-- getMostRecentScheduleTime on a schedule that always moves on and whose first two times after the
-- earliest one are the whole seconds a and b, with as much fuel as the nanoseconds from b to now:
-- it returns a result, never an error, and the result is no time when now is before a, else the
-- latest time not after now on the grid that starts at a with the step b - a, with its number on
-- the grid.
pub get_most_recent_schedule_time-IsLatest :
    (next : ℕ → ℕ)
    → ((t : ℕ) → t < next t)
    → (earliest a b now f : ℕ) → next earliest ≡ a * second
    → next (a * second) ≡ b * second
    → now < b * second + f
    → Finds
        (IsLatest (a * second) (b * second) now)
        (get_most_recent_schedule_time (suc f) next earliest now)
unfolding get_most_recent_schedule_time
get_most_recent_schedule_time-IsLatest next up earliest a b now f p q enough =
    let h = up (a * second) in
    let ordered : a * second < b * second = omega arith in
    rw (p, q)
      (if_rule (Finds (IsLatest (a * second) (b * second) now)) (ltb now (a * second))
        (λ l. (none_due, refl, not_yet (ground arith)))
        (λ l.
          if_rule (Finds (IsLatest (a * second) (b * second) now)) (ltb now (b * second))
            (λ m. (
              due (a * second) 1,
              refl,
              latest (omega arith) (omega arith) (ground arith) (ground arith),
            ))
            (λ m. extrapolate-IsLatest next up a b now f (omega arith) (ground arith) enough)))

-- The result when the most recent time of the schedule is asked for: none before its first time
-- `first`, else a time not after `now` whose next time is after `now`.
pub data IsMostRecent (next : ℕ → ℕ) (first now : ℕ) : Recent → Type 0 where
  none_yet : now < first → IsMostRecent next first now none_due
  most_recent : {t n : ℕ} → t ≤ now → now < next t → IsMostRecent next first now (due t n)

latest-IsMostRecent :
    (next : ℕ → ℕ)
    → (a b now : ℕ) → ((k : ℕ) → next (a + k * (b - a)) ≡ a + k * (b - a) + (b - a))
    → {r : Recent} → IsLatest a b now r
    → IsMostRecent next a now r
latest-IsMostRecent next a b now on (not_yet h) = none_yet h
latest-IsMostRecent next a b now on (latest {t = t} {n = n} h e k l) =
    let o : next t ≡ t + (b - a) = ap next e ∙ on (n - 1) ∙ ap (λ x. x + (b - a)) (sym e) in
    most_recent k (rw (o) l)

-- getMostRecentScheduleTime on a schedule that always moves on and whose times from its first one
-- after the earliest time are all on the grid of its first two, the whole seconds a and b, with as
-- much fuel as the nanoseconds from b to now: it returns a result, never an error, and the result
-- is no time when now is before a, else a time not after now such that the schedule's next time
-- after it is after now.
pub get_most_recent_schedule_time-IsMostRecent :
    (next : ℕ → ℕ)
    → ((t : ℕ) → t < next t)
    → (earliest a b now f : ℕ) → next earliest ≡ a * second
    → ((k : ℕ)
        → next (a * second + k * (b * second - a * second))
          ≡ a * second + k * (b * second - a * second) + (b * second - a * second))
    → now < b * second + f
    → Finds
        (IsMostRecent next (a * second) now)
        (get_most_recent_schedule_time (suc f) next earliest now)
get_most_recent_schedule_time-IsMostRecent next up earliest a b now f p on enough =
    let start : a * second + 0 * (b * second - a * second) ≡ a * second = omega arith in
    let second_time = sym (ap next start) ∙ on 0 in
    let moves = up (a * second) in
    let step : a * second + 0 * (b * second - a * second) + (b * second - a * second) ≡ b * second =
      omega arith in
    let found =
      get_most_recent_schedule_time-IsLatest next up earliest a b now f p (second_time ∙ step)
        enough in
    (found.0, found.1, latest-IsMostRecent next (a * second) (b * second) now on found.2)
