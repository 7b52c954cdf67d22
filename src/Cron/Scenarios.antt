-- ===== src/Cron/Scenarios.antt =====
-- Synchronisations of an hourly cron with one running workload.
use kubedl.Prelude.{
  ℕ, ◌+◌, ◌*◌, ◌/◌, String, true, false, none, some, List, [], ◌∷◌, ◌++◌, ◌≡◌, refl, arith, empty,
  extend, elem, map, str_eq,
}
use kubedl.Prelude.Int.{pos}
use kubedl.Cron.{in_active_list}
use kubedl.Cron.Trim.{Ref, Workload, of_refs, take, Reads, missing, present, workload_uid}
use kubedl.Cron.Trim.Retires.{IsTidy, active, retired, IsForgotten}
use kubedl.Cron.History.{Entry, refresh_cron_history}
use kubedl.Cron.History.Merges.{labels, new_entries, new_labels}
use kubedl.Cron.History.Recent.{Keeps, refresh_cron_history-Keeps}
use kubedl.Cron.Sync.{
  Cron, Status, World, is_created, forbid_concurrent, allow_concurrent, sync_cron,
}
use kubedl.Cron.Sync.Creates.{sync_cron-Forbid}
use kubedl.Cron.Sync.Steps.{IsSchedule}
use kubedl.Cron.Sync.Ascending.{run, Ascends, run-Ascends}

abbrev hour : ℕ
hour = 3600000000000

abbrev hourly : ℕ → ℕ
hourly t = (t / hour + 1) * hour

hourly-IsSchedule : IsSchedule hourly
hourly-IsSchedule = record { moves = λ t. omega arith; whole = λ t. omega arith }

abbrev running_ref : Ref
running_ref = record { uid = "u1"; name = "train-1" }

abbrev running_workload : Workload
running_workload = record { uid = "u1"; name = "train-1"; created = hour; status = none }

abbrev reads : Reads
reads = record { latest = λ w. some []; has_kind = λ r. true; presence = λ r. present }

abbrev world : ℕ → World
world now = record {
  now = now;
  fuel = 1;
  next = some hourly;
  reads = reads;
  creates = λ name. is_created "u2";
  has_reference = true;
  trims_stored = true;
  schedule_stored = true;
}

abbrev nightly : Cron
nightly = record {
  name = "nightly";
  created = 5;
  is_deleted = false;
  suspend = false;
  deadline = none;
  policy = forbid_concurrent;
  template_name = some "";
}

abbrev status : Status
status = record { active = of_refs (running_ref ∷ []); last_schedule_time = some hour }

forgotten : (w : Workload) → IsForgotten w (some [])
unfolding in_active_list
forgotten w = ([], refl, refl)

tidy : IsTidy status.active
unfolding take elem
tidy = record { is_slice = omega arith; distinct = extend refl empty }

listed : elem "u1" (map workload_uid (running_workload ∷ [])) ≡ true
unfolding elem
listed = refl

is_on : active status.active "u1" ≡ true
unfolding in_active_list take
is_on = refl

unfinished : retired (running_workload ∷ []) "u1" ≡ false
unfolding retired
unfinished = refl

sync_cron-Forbid_example :
    (sync_cron (world (2 * hour + 7)) nightly (running_workload ∷ []) status).started ≡ none
sync_cron-Forbid_example =
    sync_cron-Forbid (world (2 * hour + 7)) nightly (running_workload ∷ []) status "u1" refl
      forgotten (λ r. tt) tidy listed is_on unfinished

abbrev steps : List (World × List Workload)
steps = (world (2 * hour + 7), []) ∷ (world (3 * hour + 9), []) ∷ []

run-Ascends_example :
    Ascends (some hour) (run (record nightly { policy = allow_concurrent }) steps status)
run-Ascends_example =
    run-Ascends (record nightly { policy = allow_concurrent }) steps status
      (hourly-IsSchedule, (hourly-IsSchedule, tt))

abbrev entry : String → ℕ → Entry
entry name t = record { name = name; status = none; created = t; finished = none }

abbrev history : List Entry
history = entry "train-0" 3 ∷ entry "train-1" hour ∷ []

refresh_cron_history-Keeps_example :
    (kept : List Entry) × ((refresh_cron_history 9 (some (pos 1)) (running_workload ∷ []) history
        ≡ some kept)
      × ((refreshed : List Entry) × ((labels refreshed ≡ labels history)
            × ((labels (new_entries 9 (running_workload ∷ []) history)
                  ≡ new_labels (running_workload ∷ []) history)
                × Keeps 1 (refreshed ++ new_entries 9 (running_workload ∷ []) history) kept))))
refresh_cron_history-Keeps_example = refresh_cron_history-Keeps 9 1 (running_workload ∷ []) history

abbrev lost : Reads
lost = record reads { presence = λ r. missing }

abbrev ref : String → Ref
ref uid = record { uid = uid; name = uid }

differ : str_eq "b" "c" ≡ false
differ = refl
