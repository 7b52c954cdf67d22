-- ===== src/Cron/Reconcile.antt =====
-- controllers/apps/cron_controller.go: a reconciliation of a cron, which lists its active workloads,
-- refreshes its history and synchronises it.
use kubedl.Prelude.{Bool, not, Option, none, some, List, [], ◌∷◌, if◌then◌else◌}
use kubedl.Prelude.Int.{ℤ}
use kubedl.Cron.Trim.{Ref, Workload, items}
use kubedl.Cron.History.{Entry, refresh_cron_history}
use kubedl.Cron.Sync.{Cron, Status, World, Done, sync_cron, failed}

-- What reading a referenced workload yields.
pub data Found : Type 0 where
  found : Workload → Found
  not_found unreadable_workload : Found

abbrev pub collect : Found → Option (List Workload) → Option (List Workload)
collect f none = none
collect (found w) (some ws) = some (w ∷ ws)
collect not_found (some ws) = some ws
collect unreadable_workload (some ws) = none

-- listActiveWorkloads.
unfoldable pub list_active_workloads :
    (Ref → Bool) → (Ref → Found) → List Ref → Option (List Workload)
list_active_workloads has_kind gets [] = some []
list_active_workloads has_kind gets (r ∷ rs) =
    let rest = list_active_workloads has_kind gets rs in
    if not (has_kind r) then rest else collect (gets r) rest

-- What a reconciliation leaves in the API server.
pub record Reconciled : Type 0 where
  pub history : List Entry
  pub done : Done

abbrev pub on_history :
    World
    → Cron
    → Bool
    → List Entry
    → Status
    → List Workload
    → Option (List Entry)
    → Option Reconciled
on_history w c history_stored hs st ws none = none
on_history w c history_stored hs st ws (some hs') =
    if not history_stored
    then some
        (record { history = hs; done = record { ending = failed; stored = st; started = none } })
    else some (record { history = hs'; done = sync_cron w c ws st })

abbrev pub on_listed :
    World
    → Cron
    → Bool
    → Option ℤ
    → List Entry
    → Status
    → Option (List Workload)
    → Option Reconciled
on_listed w c history_stored limit hs st none =
    some (record { history = hs; done = record { ending = failed; stored = st; started = none } })
on_listed w c history_stored limit hs st (some ws) =
    on_history w c history_stored hs st ws (refresh_cron_history w.now limit ws hs)

-- Reconcile, on a cron that is there. There is no result when the source panics.
unfoldable pub reconcile :
    World → Cron → (Ref → Found) → Bool → Option ℤ → List Entry → Status → Option Reconciled
reconcile w c gets history_stored limit hs st =
    on_listed w c history_stored limit hs st
      (list_active_workloads w.reads.has_kind gets (items st.active))
