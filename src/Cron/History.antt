-- ===== src/Cron/History.antt =====
-- controllers/apps/cron_controller.go and cron_utils.go: the history of a cron.
pub mod Merges
pub mod Recent
use kubedl.Prelude.{
  ℕ, zero, suc, ◌+◌, ◌-◌, ◌/◌, String, Bool, true, false, Option, none, some, List, [], ◌∷◌, ◌++◌,
  ◌==◌, ltb, length, if◌then◌else◌,
}
use kubedl.Prelude.Int.{ℤ, pos, negsuc}
use kubedl.Prelude.Map.{lookup, insert}
use kubedl.Prelude.Format.{◌<>◌, decimal}
use kubedl.Prelude.Text.{str_ltb}
use kubedl.Api.{JobConditionType, JobStatus}
use kubedl.Cron.{second, is_workload_finished}
use kubedl.Cron.Trim.{Workload}

-- An entry of the history: `status` is none for the empty status. Its creation time is set wherever
-- an entry is made.
pub record Entry : Type 0 where
  pub name : String
  pub status : Option JobConditionType
  pub created : ℕ
  pub finished : Option ℕ

abbrev pub finished_status : Option JobStatus → Option JobConditionType × Bool
finished_status none = (none, false)
finished_status (some s) = is_workload_finished s

-- workloadToHistory, without the group and the kind, which are those of the template.
unfoldable pub workload_to_history : ℕ → Workload → Entry
workload_to_history now w =
    let f = finished_status w.status in
    record {
      name = w.name;
      status = f.0;
      created = w.created;
      finished = if f.1 then some now else none;
    }

-- The key of an entry: its name and the second of its creation.
unfoldable pub key : Entry → String
key h = h.name <> "-" <> decimal (h.created / second)

-- The map from the keys of the entries to their places, from the place `i` on.
unfoldable pub index_history : ℕ → List Entry → List (String × ℕ) → List (String × ℕ)
index_history i [] m = m
index_history i (h ∷ hs) m = index_history (i + 1) hs (insert (key h) i m)

abbrev pub refresh : Entry → Entry → Entry
refresh new h = record h {
  status = new.status;
  finished = elim new.finished [ none ↦ h.finished | some t ↦ some t ];
}

unfoldable pub refresh_at : ℕ → Entry → List Entry → List Entry
refresh_at i new [] = []
refresh_at zero new (h ∷ hs) = refresh new h ∷ hs
refresh_at (suc i) new (h ∷ hs) = h ∷ refresh_at i new hs

-- The loop over the workloads.
unfoldable pub merge_workloads : ℕ → List (String × ℕ) → List Workload → List Entry → List Entry
merge_workloads now m [] hs = hs
merge_workloads now m (w ∷ ws) hs =
    let new = workload_to_history now w in
    merge_workloads now m ws
      (elim (lookup (key new) m) [ none ↦ hs ++ new ∷ [] | some i ↦ refresh_at i new hs ])

-- The order of byHistoryStartTime.
unfoldable pub less : Entry → Entry → Bool
less a b = if a.created == b.created then str_ltb a.name b.name else ltb a.created b.created

-- sort.Sort: entries with the same time and name may come in any order there.
unfoldable pub insert_entry : Entry → List Entry → List Entry
insert_entry h [] = h ∷ []
insert_entry h (x ∷ xs) = let rest = insert_entry h xs in if less h x then h ∷ x ∷ xs else x ∷ rest

unfoldable pub sort_history : List Entry → List Entry
sort_history [] = []
sort_history (h ∷ hs) = insert_entry h (sort_history hs)

unfoldable pub drop : ℕ → List Entry → List Entry
drop zero hs = hs
drop (suc n) [] = []
drop (suc n) (h ∷ hs) = drop n hs

-- The cut to the limit. A negative limit, which is smaller than every size, makes the bound of the
-- slice expression larger than the size, and the source panics: no result.
unfoldable pub truncate : Option ℤ → List Entry → Option (List Entry)
truncate none hs = some hs
truncate (some (pos n)) hs = some (if ltb n (length hs) then drop (length hs - n) hs else hs)
truncate (some (negsuc n)) hs = none

-- refreshCronHistory, up to the update of the status.
unfoldable pub refresh_cron_history :
    ℕ → Option ℤ → List Workload → List Entry → Option (List Entry)
refresh_cron_history now limit ws hs =
    truncate limit (sort_history (merge_workloads now (index_history 0 hs []) ws hs))
