-- ===== src/Cron/Sync/Steps.antt =====
-- A synchronisation leaves the last schedule time or moves it on.
use kubedl.Prelude.{
  ℕ, ◌+◌, ◌-◌, ◌*◌, ◌/◌, ◌≤◌, ◌<◌, String, not, ◌&&◌, Option, none, some, ◌≡◌, refl, arith, ltb,
  if_rule,
}
use kubedl.Cron.{
  second, Recent, none_due, due, invalid_schedule, extrapolate, advance,
  get_most_recent_schedule_time, get_next_schedule_time, in_active_list,
}
use kubedl.Cron.Trim.{Slice, uids, items, of_refs}
use kubedl.Cron.Sync.{
  Cron, Status, World, Done, Ending, idle, failed, out_of_fuel, requeue_after, Creation, is_created,
  already_exists, failed_create, record_start, on_creation, start_named, start, on_replaced, on_due,
  on_recent, on_schedule, has_passed, on_trimmed, is_last, is_forbid, replaced, new_workload_name,
  schedule_next_if_possible,
}

-- A schedule moves on, and its times are whole seconds.
pub record IsSchedule (next : ℕ → ℕ) : Type 0 where
  pub moves : (t : ℕ) → t < next t
  pub whole : (t : ℕ) → next t ≡ next t / second * second

-- A due time is not before `first`.
abbrev NotBefore : ℕ → Option Recent → Type 0
NotBefore first none = Unit {0}
NotBefore first (some none_due) = Unit {0}
NotBefore first (some invalid_schedule) = Unit {0}
NotBefore first (some (due t n)) = first ≤ t

by_advance :
    (first t n : ℕ) (o : Option ℕ)
    → first ≤ t
    → NotBefore first (elim o [ none ↦ none | some u ↦ some (due t n) ])
by_advance first t n none h = tt
by_advance first t n (some u) h = h

extrapolate-NotBefore :
    (fuel : ℕ) (next : ℕ → ℕ) (t1 t2 now : ℕ)
    → t1 ≡ t1 / second * second
    → NotBefore t1 (extrapolate fuel next t1 t2 now)
unfolding extrapolate
extrapolate-NotBefore fuel next t1 t2 now w =
    let delta = (t2 - t1 + 500000000) / second in
    let missed = (now - t1) / second / delta + 1 in
    if_rule (NotBefore t1) (ltb delta 1) (λ _. tt)
      (λ _.
        by_advance t1 ((t1 / second + (missed - 1) * delta) * second) missed
          (advance fuel next now t2) (grid t1 (missed - 1) delta w))
  where
    grid : (t1 k d : ℕ) → t1 ≡ t1 / second * second → t1 ≤ (t1 / second + k * d) * second
    grid t1 k d h = omega arith

get_next-NotBefore :
    (fuel : ℕ) (next : ℕ → ℕ) (last : Option ℕ) (created now : ℕ)
    → IsSchedule next
    → NotBefore
        (next (elim last [ none ↦ created | some t ↦ t ]))
        (get_next_schedule_time fuel next last created now)
unfolding get_next_schedule_time get_most_recent_schedule_time
get_next-NotBefore fuel next last created now s =
    let earliest : ℕ = elim last [ none ↦ created | some t ↦ t ] in
    let t1 = next earliest in
    if_rule (NotBefore t1) (ltb now earliest) (λ _. tt)
      (λ _.
        if_rule (NotBefore t1) (ltb now t1) (λ _. tt)
          (λ _.
            if_rule (NotBefore t1) (ltb now (next t1)) (λ _. omega arith)
              (λ _. extrapolate-NotBefore fuel next t1 (next t1) now (s.whole earliest))))

abbrev pub After : Option ℕ → ℕ → Type 0
After none t = Unit {0}
After (some u) t = u < t

-- The schedule time of a workload that was started, once the status says so.
abbrev pub recorded_at : Ending → Option (String × ℕ) → Option ℕ
recorded_at (requeue_after n) (some (name, t)) = some t
recorded_at (requeue_after n) none = none
recorded_at idle o = none
recorded_at failed o = none
recorded_at out_of_fuel o = none

abbrev pub recorded : Done → Option ℕ
recorded d = recorded_at d.ending d.started

-- A synchronisation leaves the last schedule time, or moves it to the later time that it records.
abbrev pub Moves : Option ℕ → Option ℕ → Option ℕ → Type 0
Moves last none last' = last' ≡ last
Moves last (some t) last' = After last t × (last' ≡ some t)

abbrev pub Steps : Option ℕ → Done → Type 0
Steps last d = Moves last (recorded d) d.stored.last_schedule_time

abbrev pub AllSchedule : Option (ℕ → ℕ) → Type 0
AllSchedule none = Unit {0}
AllSchedule (some next) = IsSchedule next

module _ (w : World) (c : Cron) (st : Status) where
  record_start-Steps :
      (next : ℕ → ℕ) (t : ℕ) (name uid : String) (s : Slice)
      → After st.last_schedule_time t
      → Steps st.last_schedule_time (record_start w next st t name uid s)
  unfolding record_start
  record_start-Steps next t name uid s h =
      let P = Steps st.last_schedule_time in
      if_rule P (not w.has_reference) (λ _. refl)
        (λ _. if_rule P (not w.schedule_stored) (λ _. refl) (λ _. (h, refl)))

  created-Steps :
      (next : ℕ → ℕ) (t : ℕ) (name : String) (s : Slice) (r : Creation)
      → After st.last_schedule_time t
      → Steps st.last_schedule_time (on_creation w next st t name s r)
  created-Steps next t name s (is_created uid) h = record_start-Steps next t name uid s h
  created-Steps next t name s already_exists h =
      if_rule (Steps st.last_schedule_time) (in_active_list (uids s) "") (λ _. refl)
        (λ _. record_start-Steps next t name "" s h)
  created-Steps next t name s failed_create h = refl

  start-Steps :
      (next : ℕ → ℕ) (t : ℕ) (s : Slice) (o : Option String)
      → After st.last_schedule_time t
      → Steps st.last_schedule_time (start_named w next st t s o)
  start-Steps next t s none h = refl
  start-Steps next t s (some name) h = created-Steps next t name s (w.creates name) h

  replaced-Steps :
      (next : ℕ → ℕ) (t : ℕ) (o : Option Slice)
      → After st.last_schedule_time t
      → Steps st.last_schedule_time (on_replaced w next c st t o)
  unfolding start
  replaced-Steps next t none h = refl
  replaced-Steps next t (some s) h = start-Steps next t s (new_workload_name c t) h

  on_due-Steps :
      (next : ℕ → ℕ) (t : ℕ)
      → After st.last_schedule_time t
      → Steps st.last_schedule_time (on_due w next c st t)
  unfolding on_due
  on_due-Steps next t h =
      let P = Steps st.last_schedule_time in
      if_rule P (is_last st.last_schedule_time t) (λ _. refl)
        (λ _.
          if_rule P (is_forbid c.policy && ltb 0 st.active.len) (λ _. refl)
            (λ _. replaced-Steps next t (replaced c w.reads st.active) h))

  next_later :
      (next : ℕ → ℕ) (last : Option ℕ) (t : ℕ)
      → IsSchedule next
      → next (elim last [ none ↦ c.created | some u ↦ u ]) ≤ t
      → After last t
  next_later next none t s h = tt
  next_later next (some u) t s h = omega (arith, s.moves u)

  on_recent-Steps :
      (next : ℕ → ℕ) (o : Option Recent)
      → IsSchedule next
      → NotBefore (next (elim st.last_schedule_time [ none ↦ c.created | some u ↦ u ])) o
      → Steps st.last_schedule_time (on_recent w next c st o)
  on_recent-Steps next none s h = refl
  on_recent-Steps next (some none_due) s h = refl
  on_recent-Steps next (some invalid_schedule) s h = refl
  on_recent-Steps next (some (due t n)) s h =
      on_due-Steps next t (next_later next st.last_schedule_time t s h)

  on_schedule-Steps :
      (o : Option (ℕ → ℕ)) → AllSchedule o → Steps st.last_schedule_time (on_schedule w c st o)
  on_schedule-Steps none s = refl
  on_schedule-Steps (some next) s =
      on_recent-Steps next
        (get_next_schedule_time w.fuel next st.last_schedule_time c.created w.now) s
        (get_next-NotBefore w.fuel next st.last_schedule_time c.created w.now s)

pub sync-Steps :
    (w : World) (c : Cron) (st : Status) (o : Option Slice)
    → AllSchedule w.next
    → Steps st.last_schedule_time (on_trimmed w c st o)
unfolding schedule_next_if_possible
sync-Steps w c st none s = refl
sync-Steps w c st (some a) s =
    let P = Steps st.last_schedule_time in
    if_rule P (not w.trims_stored) (λ _. refl)
      (λ _.
        if_rule P c.is_deleted (λ _. refl)
          (λ _.
            if_rule P c.suspend (λ _. refl)
              (λ _.
                if_rule P (has_passed c.deadline w.now) (λ _. refl)
                  (λ _.
                    on_schedule-Steps w c (record st { active = of_refs (items a) }) w.next s))))
