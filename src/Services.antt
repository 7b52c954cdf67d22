-- ===== src/Services.antt =====
-- pkg/job_controller/service.go: how the services of one replica type are reconciled with its
-- specification. What CreateNewService, DeleteService and the patcher return is an argument.
pub mod Slots
pub mod Creates
mod Tests
use kubedl.Prelude.{
  ℕ, zero, suc, ◌+◌, String, Bool, true, false, not, ◌&&◌, Option, none, some, List, [], ◌∷◌, ◌++◌,
  ◌==◌, leb, if◌then◌else◌,
}
use kubedl.Prelude.Int.{ℤ, pos, negsuc}
use kubedl.Prelude.Map.{lookup}
use kubedl.Prelude.Text.{to_lower}
use kubedl.Kube.{Labels, index_of, replica_type_label}
use kubedl.Pods.{resize, append_at, label_is}

-- A service: target_port is the target of its first port, if it has ports.
pub record Service : Type 0 where
  pub name : String
  pub labels : Labels
  pub is_deleting : Bool
  pub target_port : Option ℕ

-- FilterServicesForReplicaType. The type is a valid value of a label.
unfoldable pub filter_services_for_replica_type : List Service → String → List Service
filter_services_for_replica_type [] t = []
filter_services_for_replica_type (s ∷ ss) t =
    let rest = filter_services_for_replica_type ss t in
    if label_is (lookup replica_type_label s.labels) t then s ∷ rest else rest

-- The body of the loop of GetServiceSlices. There is no result for a negative index: the source
-- warns and then indexes the slice with it, which panics.
abbrev pub place_service :
    ℕ → Option ℤ → Service → List (List Service) → Option (List (List Service))
place_service replicas none s xs = some xs
place_service replicas (some (negsuc n)) s xs = none
place_service replicas (some (pos i)) s xs =
    some (append_at i s (if leb replicas i then resize (i + 1) xs else xs))

unfoldable pub place_services :
    ℕ → List Service → List (List Service) → Option (List (List Service))
place_services replicas [] xs = some xs
place_services replicas (s ∷ ss) xs = elim (place_service replicas (index_of s.labels) s xs) [
  | none ↦ none
  | some ys ↦ place_services replicas ss ys
]

-- GetServiceSlices.
unfoldable pub get_service_slices : List Service → ℕ → Option (List (List Service))
get_service_slices ss replicas = place_services replicas ss (resize replicas [])

-- The calls that change services.
pub data ServiceCall : Type 0 where
  create_service : ℕ → ServiceCall
  delete_service : String → ServiceCall
  retarget_service : String → ℕ → ServiceCall

-- The patch of the target port: `port` is the port on the host of the replica, for a job on the
-- network of the hosts whose context has one.
abbrev pub retarget : String → Option ℕ → Option ℕ → List ServiceCall
retarget name none target = []
retarget name (some port) none = []
retarget name (some port) (some target) =
    if target == port then [] else retarget_service name port ∷ []

-- The body of the loop of ReconcileServices: the calls for one index, in their order.
unfoldable pub slice_calls : (ℕ → Option ℕ) → ℕ → ℕ → List Service → List ServiceCall
slice_calls ports replicas index [] = create_service index ∷ []
slice_calls ports replicas index (s ∷ []) =
    let patch = retarget s.name (ports index) s.target_port in
    if leb replicas index && not s.is_deleting then delete_service s.name ∷ patch else patch
slice_calls ports replicas index (s ∷ t ∷ ss) = []

unfoldable pub all_calls : (ℕ → Option ℕ) → ℕ → ℕ → List (List Service) → List ServiceCall
all_calls ports replicas index [] = []
all_calls ports replicas index (x ∷ xs) =
    slice_calls ports replicas index x ++ all_calls ports replicas (index + 1) xs

-- The calls up to the first that returns an error, and whether there was one.
unfoldable pub until_error : (ServiceCall → Bool) → List ServiceCall → List ServiceCall × Bool
until_error fails [] = ([], false)
until_error fails (c ∷ cs) =
    let rest = until_error fails cs in if fails c then (c ∷ [], true) else (c ∷ rest.0, rest.1)

-- ReconcileServices. Nothing but the calls changes, so the loop makes the calls of the slices one
-- after the other and ends at the first error.
unfoldable pub reconcile_services :
    (ServiceCall → Bool)
    → (ℕ → Option ℕ)
    → List Service
    → String
    → ℕ
    → Option (List ServiceCall × Bool)
reconcile_services fails ports ss rtype replicas =
    elim (get_service_slices (filter_services_for_replica_type ss (to_lower rtype)) replicas) [
      | none ↦ none
      | some xs ↦ some (until_error fails (all_calls ports replicas 0 xs))
    ]
