-- ===== src/Cron/Sync/Ascending.antt =====
-- Each schedule time is used once.
use kubedl.Prelude.{ℕ, Option, none, some, List, [], ◌∷◌}
use mathlib.Core.Path.{subst}
use kubedl.Cron.Trim.{Workload, trim_finished_workloads}
use kubedl.Cron.Sync.{Cron, Status, World, on_trimmed, sync_cron}
use kubedl.Cron.Sync.Steps.{After, recorded, Moves, AllSchedule, sync-Steps}

-- The schedule times that a history of synchronisations records, each on the status that the one
-- before has stored.
unfoldable pub run : Cron → List (World × List Workload) → Status → List ℕ
run c [] st = []
run c ((w, ws) ∷ rest) st =
    let d = sync_cron w c ws st in
    let later = run c rest d.stored in elim (recorded d) [ none ↦ later | some t ↦ t ∷ later ]

abbrev pub Ascends : Option ℕ → List ℕ → Type 0
Ascends last [] = Unit {0}
Ascends last (t ∷ ts) = After last t × Ascends (some t) ts

abbrev pub AllSchedules : List (World × List Workload) → Type 0
AllSchedules [] = Unit {0}
AllSchedules ((w, ws) ∷ rest) = AllSchedule w.next × AllSchedules rest

extend_run :
    (last last' o : Option ℕ) (ts : List ℕ)
    → Moves last o last'
    → Ascends last' ts
    → Ascends last (elim o [ none ↦ ts | some t ↦ t ∷ ts ])
extend_run last last' none ts m h = subst (λ l. Ascends l ts) m h
extend_run last last' (some t) ts m h = (m.0, subst (λ l. Ascends l ts) (m.1) h)

-- Over every history of synchronisations of a cron whose schedules move on and have times of whole
-- seconds, whatever the API server answers and whichever updates fail: the schedule times that are
-- recorded with a started workload ascend strictly, from after the last one in the status. So no
-- schedule time is recorded twice.
pub run-Ascends :
    (c : Cron) (steps : List (World × List Workload)) (st : Status)
    → AllSchedules steps
    → Ascends st.last_schedule_time (run c steps st)
unfolding run sync_cron
run-Ascends c [] st s = tt
run-Ascends c ((w, ws) ∷ rest) st s =
    let d = on_trimmed w c st (trim_finished_workloads w.reads ws st.active) in
    extend_run st.last_schedule_time d.stored.last_schedule_time (recorded d) (run c rest d.stored)
      (sync-Steps w c st (trim_finished_workloads w.reads ws st.active) s.0)
      (run-Ascends c rest d.stored s.1)
