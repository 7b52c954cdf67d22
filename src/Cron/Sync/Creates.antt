-- ===== src/Cron/Sync/Creates.antt =====
-- When a workload is started.
use kubedl.Prelude.{
  ℕ, ◌<◌, String, true, false, not, Option, none, some, List, [], ◌∷◌, ◌≡◌, refl, ◌∙◌, arith, map,
  elem, ltb, length, if_rule,
}
use kubedl.Cron.{Recent, none_due, due, invalid_schedule, get_next_schedule_time, in_active_list}
use kubedl.Cron.Trim.{Ref, Workload, items, uid_of, of_refs, workload_uid}
use kubedl.Cron.Trim.Retires.{IsTidy, active, retired, IsForgotten}
use kubedl.Cron.Trim.Missing.{IsReadable, trim_finished_workloads-Trims}
use kubedl.Cron.Sync.{
  Cron, Status, World, Done, is_forbid, is_last, on_due, on_recent, on_schedule, has_passed,
  schedule_next_if_possible, sync_cron,
}

on_due-Forbid :
    (w : World) (next : ℕ → ℕ) (c : Cron) (st : Status) (t : ℕ)
    → is_forbid c.policy ≡ true
    → 0 < st.active.len
    → (on_due w next c st t).started ≡ none
unfolding on_due
on_due-Forbid w next c st t h k =
    let full : ltb 0 st.active.len ≡ true = ground arith in
    rw (h, full)
      (if_rule (λ (d : Done). d.started ≡ none) (is_last st.last_schedule_time t) (λ e. refl)
        (λ e. refl))

recent-Forbid :
    (w : World) (next : ℕ → ℕ) (c : Cron) (st : Status) (o : Option Recent)
    → is_forbid c.policy ≡ true
    → 0 < st.active.len
    → (on_recent w next c st o).started ≡ none
recent-Forbid w next c st none h k = refl
recent-Forbid w next c st (some none_due) h k = refl
recent-Forbid w next c st (some invalid_schedule) h k = refl
recent-Forbid w next c st (some (due t n)) h k = on_due-Forbid w next c st t h k

schedule-Forbid :
    (w : World) (c : Cron) (st : Status) (o : Option (ℕ → ℕ))
    → is_forbid c.policy ≡ true
    → 0 < st.active.len
    → (on_schedule w c st o).started ≡ none
schedule-Forbid w c st none h k = refl
schedule-Forbid w c st (some next) h k =
    recent-Forbid w next c st
      (get_next_schedule_time w.fuel next st.last_schedule_time c.created w.now) h k

active-length :
    (rs : List Ref) (v : String) → in_active_list (map uid_of rs) v ≡ true → 0 < length rs
unfolding in_active_list
active-length [] v h = cc
active-length (r ∷ rs) v h = omega arith

-- While a cron that forbids concurrent workloads has an active one among those that are listed
-- which has not finished, a synchronisation starts none; where no two active workloads have the
-- same uid, every reference can be looked up, and the list that is read again does not know a
-- workload that the cron does not.
pub sync_cron-Forbid :
    (w : World) (c : Cron) (ws : List Workload) (st : Status) (v : String)
    → is_forbid c.policy ≡ true
    → ((x : Workload) → IsForgotten x (w.reads.latest x))
    → ((r : Ref) → IsReadable (w.reads.presence r))
    → IsTidy st.active
    → elem v (map workload_uid ws) ≡ true
    → active st.active v ≡ true
    → retired ws v ≡ false
    → (sync_cron w c ws st).started ≡ none
unfolding sync_cron schedule_next_if_possible
sync_cron-Forbid w c ws st v h f ok tidy listed on unfinished =
    let (s, e, t) = trim_finished_workloads-Trims w.reads ws st.active f ok tidy in
    let still : active s v ≡ true = t.listed v listed ∙ rw (unfinished) on in
    let none_started = λ (d : Done). d.started ≡ none in
    rw (e) (
      if_rule none_started (not w.trims_stored) (λ _. refl)
        (λ _.
          if_rule none_started c.is_deleted (λ _. refl)
            (λ _.
              if_rule none_started c.suspend (λ _. refl)
                (λ _.
                  if_rule none_started (has_passed c.deadline w.now) (λ _. refl)
                    (λ _.
                      schedule-Forbid w c (record st { active = of_refs (items s) }) w.next h
                        (active-length (items s) v still))))))
