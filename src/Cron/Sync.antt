-- ===== src/Cron/Sync.antt =====
-- controllers/apps/cron_controller.go: the scheduling of the next workload, and a reconciliation.
pub mod Creates
pub mod Steps
pub mod Ascending
use kubedl.Prelude.{
  ℕ, zero, suc, ◌+◌, ◌-◌, ◌/◌, String, Bool, true, false, not, ◌&&◌, Option, none, some, List, [],
  ◌∷◌, ◌++◌, ◌==◌, str_eq, ltb, length, if◌then◌else◌,
}
use kubedl.Prelude.Format.{◌<>◌, decimal}
use kubedl.Cron.{
  second, Recent, none_due, due, invalid_schedule, get_next_schedule_time, in_active_list,
}
use kubedl.Cron.Trim.{
  Ref, Workload, Slice, items, uids, of_refs, get_elem?, delete_in_place, Presence, present,
  missing, unreadable, Reads, trim_finished_workloads,
}

pub data ConcurrencyPolicy : Type 0 where
  allow_concurrent forbid_concurrent replace_concurrent : ConcurrencyPolicy

abbrev pub is_forbid : ConcurrencyPolicy → Bool
is_forbid forbid_concurrent = true
is_forbid _ = false

abbrev pub is_replace : ConcurrencyPolicy → Bool
is_replace replace_concurrent = true
is_replace _ = false

-- What a synchronisation reads of a cron but its status: `template_name` is the name in its
-- template, none when no workload can be made from it.
pub record Cron : Type 0 where
  pub name : String
  pub created : ℕ
  pub is_deleted : Bool
  pub suspend : Bool
  pub deadline : Option ℕ
  pub policy : ConcurrencyPolicy
  pub template_name : Option String

-- The status of a cron, but its history.
pub record Status : Type 0 where
  pub active : Slice
  pub last_schedule_time : Option ℕ

pub data Creation : Type 0 where
  is_created : String → Creation
  already_exists failed_create : Creation

-- What the synchronisation asks of the rest: `next` is the schedule, if it can be parsed, `fuel`
-- that of the loop over it, and the Booleans are whether the two updates of the status succeed.
pub record World : Type 0 where
  pub now : ℕ
  pub fuel : ℕ
  pub next : Option (ℕ → ℕ)
  pub reads : Reads
  pub creates : String → Creation
  pub has_reference : Bool
  pub trims_stored : Bool
  pub schedule_stored : Bool

pub data Ending : Type 0 where
  idle failed out_of_fuel : Ending
  requeue_after : ℕ → Ending

-- The end of a synchronisation: the status in the API server, and the workload that was created or
-- found, with its schedule time.
pub record Done : Type 0 where
  pub ending : Ending
  pub stored : Status
  pub started : Option (String × ℕ)

-- nextScheduledTimeDuration, with its padding of 100 milliseconds.
unfoldable pub next_scheduled_time_duration : (ℕ → ℕ) → ℕ → ℕ
next_scheduled_time_duration next now = next now + 100000000 - now

-- getDefaultJobName.
unfoldable pub get_default_job_name : String → ℕ → String
get_default_job_name name t = name <> "-" <> decimal (t / second)

-- The name of the workload in newWorkloadFromTemplate.
unfoldable pub new_workload_name : Cron → ℕ → Option String
new_workload_name c t = elim c.template_name [
  | none ↦ none
  | some name ↦ some (if str_eq name "" then get_default_job_name c.name t else name)
]

-- deleteWorkload: the reference leaves the list in memory; the workload itself is not deleted.
unfoldable pub delete_workload : Reads → Ref → Slice → Option Slice
delete_workload reads r s =
    if not (reads.has_kind r)
    then none
    else elim (reads.presence r) [ unreadable ↦ none | _ ↦ some (delete_in_place r.uid s) ]

-- The loop of the policy Replace, which reads the array that the deletions write.
unfoldable pub replace_actives : Reads → ℕ → ℕ → Slice → Option Slice
replace_actives reads zero i s = some s
replace_actives reads (suc n) i s = elim (get_elem? s.array i) [
  | none ↦ none
  | some r ↦ elim (delete_workload reads r s) [
    | none ↦ none
    | some s' ↦ replace_actives reads n (i + 1) s'
  ]
]

abbrev pub replaced : Cron → Reads → Slice → Option Slice
replaced c reads s = if is_replace c.policy then replace_actives reads s.len 0 s else some s

abbrev pub is_last : Option ℕ → ℕ → Bool
is_last none t = false
is_last (some u) t = u == t

-- The end of scheduleNextIfPossible, when there is a workload for the time `t` in the API server.
unfoldable pub record_start : World → (ℕ → ℕ) → Status → ℕ → String → String → Slice → Done
record_start w next stored t name uid s =
    let entry : Ref = record { uid = uid; name = name } in
    let status : Status = record {
      active = of_refs (items s ++ entry ∷ []);
      last_schedule_time = some t;
    } in
    if not w.has_reference
    then record { ending = failed; stored = stored; started = some (name, t) }
    else if not w.schedule_stored
    then record { ending = failed; stored = stored; started = some (name, t) }
    else record {
      ending = requeue_after (next_scheduled_time_duration next w.now);
      stored = status;
      started = some (name, t);
    }

-- The switch on what the creation returns. A workload that exists already has no uid here, since
-- the creation has not filled one in.
abbrev pub on_creation : World → (ℕ → ℕ) → Status → ℕ → String → Slice → Creation → Done
on_creation w next stored t name s (is_created uid) = record_start w next stored t name uid s
on_creation w next stored t name s already_exists =
    if in_active_list (uids s) ""
    then record { ending = failed; stored = stored; started = some (name, t) }
    else record_start w next stored t name "" s
on_creation w next stored t name s failed_create = record {
  ending = failed;
  stored = stored;
  started = none;
}

abbrev pub start_named : World → (ℕ → ℕ) → Status → ℕ → Slice → Option String → Done
start_named w next stored t s none = record { ending = failed; stored = stored; started = none }
start_named w next stored t s (some name) = on_creation w next stored t name s (w.creates name)

-- The creation of the workload for the time `t`.
unfoldable pub start : World → (ℕ → ℕ) → Cron → Status → ℕ → Slice → Done
start w next c stored t s = start_named w next stored t s (new_workload_name c t)

abbrev pub on_replaced : World → (ℕ → ℕ) → Cron → Status → ℕ → Option Slice → Done
on_replaced w next c st t none = record { ending = failed; stored = st; started = none }
on_replaced w next c st t (some s) = start w next c st t s

-- A workload is due at `t`.
unfoldable pub on_due : World → (ℕ → ℕ) → Cron → Status → ℕ → Done
on_due w next c st t =
    let later : Done = record {
      ending = requeue_after (next_scheduled_time_duration next w.now);
      stored = st;
      started = none;
    } in
    if is_last st.last_schedule_time t
    then later
    else if is_forbid c.policy && ltb 0 st.active.len
    then later
    else on_replaced w next c st t (replaced c w.reads st.active)

-- The branches on what getNextScheduleTime returns.
abbrev pub on_recent : World → (ℕ → ℕ) → Cron → Status → Option Recent → Done
on_recent w next c st none = record { ending = out_of_fuel; stored = st; started = none }
on_recent w next c st (some none_due) = record {
  ending = requeue_after (next_scheduled_time_duration next w.now);
  stored = st;
  started = none;
}
on_recent w next c st (some invalid_schedule) = record {
  ending = failed;
  stored = st;
  started = none;
}
on_recent w next c st (some (due t n)) = on_due w next c st t

abbrev pub on_schedule : World → Cron → Status → Option (ℕ → ℕ) → Done
on_schedule w c st none = record { ending = idle; stored = st; started = none }
on_schedule w c st (some next) =
    on_recent w next c st (get_next_schedule_time w.fuel next st.last_schedule_time c.created w.now)

-- scheduleNextIfPossible.
unfoldable pub schedule_next_if_possible : World → Cron → Status → Done
schedule_next_if_possible w c st = on_schedule w c st w.next

abbrev pub has_passed : Option ℕ → ℕ → Bool
has_passed none now = false
has_passed (some d) now = ltb d now

-- syncCron, once the active list has been trimmed: store, check, schedule.
abbrev pub on_trimmed : World → Cron → Status → Option Slice → Done
on_trimmed w c st none = record { ending = failed; stored = st; started = none }
on_trimmed w c st (some s) =
    let trimmed : Status = record st { active = of_refs (items s) } in
    if not w.trims_stored
    then record { ending = failed; stored = st; started = none }
    else if c.is_deleted
    then record { ending = idle; stored = trimmed; started = none }
    else if c.suspend
    then record { ending = idle; stored = trimmed; started = none }
    else if has_passed c.deadline w.now
    then record { ending = idle; stored = trimmed; started = none }
    else schedule_next_if_possible w c trimmed

-- syncCron, on the listed workloads.
unfoldable pub sync_cron : World → Cron → List Workload → Status → Done
sync_cron w c ws st = on_trimmed w c st (trim_finished_workloads w.reads ws st.active)
