-- ===== src/Cron/Trim.antt =====
-- controllers/apps/cron_controller.go: finished and missing workloads leave the active list.
pub mod InPlace
pub mod Retires
pub mod Missing
use kubedl.Prelude.{
  ℕ, zero, suc, ◌+◌, ◌-◌, String, Bool, true, false, not, ◌&&◌, Option, none, some, List, [], ◌∷◌,
  map, str_eq, elem, length, if◌then◌else◌,
}
use kubedl.Api.{JobStatus}
use kubedl.Cron.{in_active_list, is_workload_finished}

-- A reference to a workload, and a workload. The status is that of StatusTraitor, if it has one.
pub record Ref : Type 0 where
  pub uid : String
  pub name : String

pub record Workload : Type 0 where
  pub uid : String
  pub name : String
  pub created : ℕ
  pub status : Option JobStatus

abbrev pub is_finished : Option JobStatus → Bool
is_finished none = false
is_finished (some s) = (is_workload_finished s).1

-- A Go slice: its array and its length. A deletion writes into the array, which a loop that ranges
-- over the slice goes on reading up to the length at its start.
pub record Slice : Type 0 where
  pub array : List Ref
  pub len : ℕ

unfoldable pub take : ℕ → List Ref → List Ref
take zero rs = []
take (suc n) [] = []
take (suc n) (r ∷ rs) = r ∷ take n rs

abbrev pub get_elem? : List Ref → ℕ → Option Ref
get_elem? [] i = none
get_elem? (r ∷ rs) zero = some r
get_elem? (r ∷ rs) (suc i) = get_elem? rs i

abbrev pub uid_of : Ref → String
uid_of r = r.uid

abbrev pub items : Slice → List Ref
items s = take s.len s.array

abbrev pub uids : Slice → List String
uids s = map uid_of (items s)

abbrev pub of_refs : List Ref → Slice
of_refs rs = record { array = rs; len = length rs }

-- copy(active[i:], active[i+1:]): `n` references after `r` move down by one, the last stays.
unfoldable pub shift_down : ℕ → Ref → List Ref → List Ref
shift_down zero r rs = r ∷ rs
shift_down (suc n) r [] = r ∷ []
shift_down (suc n) r (s ∷ rs) = s ∷ shift_down n s rs

-- The array after deleteFromActiveList, and whether the uid was found among the first `n`.
unfoldable pub delete_in_array : ℕ → List Ref → String → List Ref × Bool
delete_in_array zero rs uid = (rs, false)
delete_in_array (suc n) [] uid = ([], false)
delete_in_array (suc n) (r ∷ rs) uid =
    let rest = delete_in_array n rs uid in
    if str_eq r.uid uid then (shift_down n r rs, true) else (r ∷ rest.0, rest.1)

-- deleteFromActiveList.
unfoldable pub delete_in_place : String → Slice → Slice
delete_in_place uid s =
    let d = delete_in_array s.len s.array uid in
    record { array = d.0; len = if d.1 then s.len - 1 else s.len }

-- The variable `cron` of trimFinishedWorkloadsFromActiveList: `current` is its active list, and
-- `callers` that of the caller, once the variable stands for another object.
pub record Trim : Type 0 where
  pub current : Slice
  pub callers : Slice
  pub is_detached : Bool

-- What the caller sees.
abbrev pub seen : Trim → Slice
seen t = if t.is_detached then t.callers else t.current

-- The branch for a workload that is neither in the list nor finished: `latest` is the active list
-- of the cron that is read again, if that succeeds.
unfoldable pub double_check : Option (List Ref) → Workload → Trim → Option Trim
double_check none w t = none
double_check (some rs) w t =
    if in_active_list (map uid_of rs) w.uid
    then some (record { current = of_refs rs; callers = seen t; is_detached = true })
    else some t

-- The body of the loop over the workloads.
unfoldable pub trim_one : Option (List Ref) → Workload → Trim → Option Trim
trim_one latest w t =
    let found = in_active_list (uids t.current) w.uid in
    let finished = is_finished w.status in
    let trimmed : Trim = record t { current = delete_in_place w.uid t.current } in
    if not found && not finished
    then double_check latest w t
    else if found && finished
    then some trimmed
    else some t

unfoldable pub trim_all : (Workload → Option (List Ref)) → List Workload → Trim → Option Trim
trim_all latest [] t = some t
trim_all latest (w ∷ ws) t = elim (trim_one (latest w) w t) [
  | none ↦ none
  | some t' ↦ trim_all latest ws t'
]

-- What the API server says of a referenced workload.
pub data Presence : Type 0 where
  present missing unreadable : Presence

pub data Verdict : Type 0 where
  keep_ref drop_ref fail_ref : Verdict

-- The body of the loop over the references: `known` are the uids of the listed workloads, and
-- `has_kind` whether an empty workload of the kind can be made.
abbrev pub judge : Bool → Bool → Presence → Verdict
judge true has_kind p = keep_ref
judge false false p = keep_ref
judge false true present = keep_ref
judge false true missing = drop_ref
judge false true unreadable = fail_ref

-- The loop over the references: `n` rounds are left, and the array is read at `i`.
unfoldable pub trim_missing :
    (Ref → Bool) → (Ref → Presence) → List String → ℕ → ℕ → Slice → Option Slice
trim_missing has_kind presence known zero i s = some s
trim_missing has_kind presence known (suc n) i s = elim (get_elem? s.array i) [
  | none ↦ none
  | some r ↦ elim (judge (elem r.uid known) (has_kind r) (presence r)) [
    | keep_ref ↦ trim_missing has_kind presence known n (i + 1) s
    | drop_ref ↦ trim_missing has_kind presence known n (i + 1) (delete_in_place r.uid s)
    | fail_ref ↦ none
  ]
]

abbrev pub workload_uid : Workload → String
workload_uid w = w.uid

-- The answers of the API server while the active list is trimmed.
pub record Reads : Type 0 where
  pub latest : Workload → Option (List Ref)
  pub has_kind : Ref → Bool
  pub presence : Ref → Presence

-- trimFinishedWorkloadsFromActiveList: the active list that the caller sees afterwards, or none for
-- an error.
unfoldable pub trim_finished_workloads : Reads → List Workload → Slice → Option Slice
trim_finished_workloads reads ws s =
    let start : Trim = record { current = s; callers = s; is_detached = false } in
    elim (trim_all reads.latest ws start) [
      | none ↦ none
      | some t ↦
          elim (trim_missing reads.has_kind reads.presence (map workload_uid ws) t.current.len 0
            t.current) [ none ↦ none | some current ↦ some (seen (record t { current = current })) ]
    ]
