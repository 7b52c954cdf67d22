-- ===== src/Jobs/Limits.antt =====
-- A deadline that has passed stays passed.
use kubedl.Prelude.{ℕ, ◌≤◌, ◌*◌, true, false, Option, none, some, ◌≡◌, arith, not}
use kubedl.Prelude.Int.{ℤ, sub_ℕ, ltb_ℤ}
use kubedl.Api.{JobStatus}
use kubedl.Jobs.{RunPolicy, second, to_int64, past_active_deadline}

later_reaches :
    (start now later : ℕ) (d : ℤ)
    → now ≤ later
    → not (ltb_ℤ (sub_ℕ now start) d) ≡ true
    → not (ltb_ℤ (sub_ℕ later start) d) ≡ true
later_reaches start now later d h k = ground arith

-- A job whose deadline has passed at one time is past it at every later time, also where the start
-- lies in the future or the deadline overflows the duration.
pub past_active_deadline_later :
    (now later : ℕ) (p : RunPolicy) (s : JobStatus)
    → now ≤ later
    → past_active_deadline now p s ≡ true
    → past_active_deadline later p s ≡ true
unfolding past_active_deadline
past_active_deadline_later now later p s h k = each p.active_deadline_seconds s.start_time k
  where
    each :
        (d o : Option ℕ)
        → elim d [
          | none ↦ false
          | some deadline ↦ elim o [
            | none ↦ false
            | some start ↦ not (ltb_ℤ (sub_ℕ now start) (to_int64 (deadline * second)))
          ]
        ]
          ≡ true
        → elim d [
          | none ↦ false
          | some deadline ↦ elim o [
            | none ↦ false
            | some start ↦ not (ltb_ℤ (sub_ℕ later start) (to_int64 (deadline * second)))
          ]
        ]
          ≡ true
    each none o e = absurd (cc)
    each (some deadline) none e = absurd (cc)
    each (some deadline) (some start) e =
        later_reaches start now later (to_int64 (deadline * second)) h e
