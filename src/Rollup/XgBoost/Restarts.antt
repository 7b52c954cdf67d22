-- ===== src/Rollup/XgBoost/Restarts.antt =====
-- Why an XGBoostJob is never left restarting.
use kubedl.Prelude.{
  ℕ, ◌≤◌, String, Bool, true, false, Option, none, some, List, [], ◌∷◌, ◌≡◌, refl, inl, inr, arith,
  Bool-cases, if_keeps, ltb,
}
use kubedl.Prelude.Map.{lookup}
use kubedl.Api.{
  JobConditionType, running, restarting, succeeded, failed, JobStatus, ReplicaSpec, ReplicaStatus,
}
use kubedl.Conditions.{is_restarting, has_condition, update_job_conditions}
use kubedl.Conditions.Invariant.{is_finished, IsWellFormed}
use kubedl.Rollup.{
  Roll, Specs, Flow, next, returned, refused, panics, start, complete, mark_running, mark_succeeded,
  mark_restarting, loop,
}
use kubedl.Rollup.Laws.{FlowAll, at_returned}
use kubedl.Rollup.Finishes.{ends_by}
use kubedl.Rollup.Laws.{has_condition-update_self, update_finished}
use kubedl.Conditions.Counting.{count_type}
use kubedl.Conditions.{any_true, is_running, job_running_reason}
use kubedl.Api.{JobCondition}
use kubedl.Conditions.Invariant.{update_job_conditions-IsWellFormed}
use kubedl.Rollup.XgBoost.{Job, body, note_start, fail, react, update_job_status, fail_time}

count_of_any_true :
    (cs : List JobCondition) (t : JobConditionType) → any_true cs t ≡ true → 1 ≤ count_type cs t
unfolding any_true
count_of_any_true [] t h = absurd (cc)
count_of_any_true (c ∷ cs) t h = ground (arith, count_of_any_true cs t)

-- A well-formed status is not both running and restarting.
apart : (s : JobStatus) → IsWellFormed s → is_running s ≡ true → is_restarting s ≡ false
unfolding has_condition
apart s v h = elim (Bool-cases (any_true s.conditions restarting)) [
  | inl e ↦ absurd (
      omega (
        arith,
        v.exclusive,
        count_of_any_true s.conditions running h,
        count_of_any_true s.conditions restarting e,
      ))
  | inr n ↦ n
]

-- How the flow of the loop may be left: going on well formed, or returning a finished job.
data Leaves : Flow → Type 0 where
  goes_on : {r : Roll} → IsWellFormed r.status → Leaves (next r)
  ends : {r : Roll} → is_finished r.status ≡ true → Leaves (returned r)

module _ (j : Job) where
  note_start-IsWellFormed :
      (spec : ReplicaSpec) (st : ReplicaStatus) (r : Roll)
      → IsWellFormed r.status
      → IsWellFormed (note_start j.now spec st r).status
  unfolding note_start has_condition
  note_start-IsWellFormed spec st r v =
      if_keeps (λ (x : Roll). IsWellFormed x.status) _
        (record {
          distinct = v.distinct;
          exclusive = v.exclusive;
          one_end = v.one_end;
          not_running = v.not_running;
        })
        v

  timed-IsWellFormed :
      (s : JobStatus) (o : Option ℕ)
      → IsWellFormed s
      → IsWellFormed (record s { completion_time = o })
  unfolding has_condition
  timed-IsWellFormed s o v = record {
    distinct = v.distinct;
    exclusive = v.exclusive;
    one_end = v.one_end;
    not_running = v.not_running;
  }

  fail-IsWellFormed :
      (msg : String) (r : Roll) → IsWellFormed r.status → IsWellFormed (fail j msg r).status
  unfolding fail
  fail-IsWellFormed msg r v =
      update_job_conditions-IsWellFormed j.now
        (record r.status { completion_time = fail_time j r.status }) failed _ msg
        (timed-IsWellFormed r.status (fail_time j r.status) v)

  react-IsWellFormed :
      (t : String) (st : ReplicaStatus) (r : Roll)
      → IsWellFormed r.status
      → IsWellFormed (react j t st r).status
  unfolding react mark_restarting
  react-IsWellFormed t st r v =
      if_keeps (λ (x : Roll). IsWellFormed x.status) _
        (if_keeps (λ (x : Roll). IsWellFormed x.status) _
          (update_job_conditions-IsWellFormed j.now r.status restarting _ _ v)
          (fail-IsWellFormed _ r v))
        v

  master_ends : (msg : String) (r : Roll) → is_finished (mark_succeeded j.now msg r).status ≡ true
  unfolding mark_succeeded
  master_ends msg r = ends_by j.now (complete j.now r.status) succeeded _ msg (inr refl)

  body-Leaves :
      (t : String) (spec : ReplicaSpec) (st : ReplicaStatus) (r : Roll)
      → IsWellFormed r.status
      → Leaves (body j t spec st r)
  unfolding body mark_running
  body-Leaves t spec st r v =
      let v₁ = note_start-IsWellFormed spec st r v in
      let v₂ =
        if_keeps (λ (x : Roll). IsWellFormed x.status) (ltb 0 st.active)
          (update_job_conditions-IsWellFormed j.now _ running _ _ v₁) v₁ in
      if_keeps Leaves _
        (if_keeps Leaves _ (ends (master_ends _ _)) (goes_on (react-IsWellFormed t st _ v₂)))
        (goes_on (react-IsWellFormed t st _ v₁))

  Leaves-next :
      (f : Flow) (rest : Specs)
      → Leaves f
      → ((r : Roll) → IsWellFormed r.status → Leaves (loop (body j) rest r))
      → Leaves (elim f [
        | next r' ↦ loop (body j) rest r'
        | returned r' ↦ returned r'
        | refused r' ↦ refused r'
        | panics ↦ panics
      ])
  Leaves-next (next r) rest (goes_on v) k = k r v
  Leaves-next (returned r) rest l k = l
  Leaves-next (refused r) rest l k = elim l [ ]
  Leaves-next panics rest l k = elim l [ ]

  Leaves-entry :
      (o : Option ReplicaStatus) (t : String) (spec : ReplicaSpec) (rest : Specs) (r : Roll)
      → IsWellFormed r.status
      → ((r' : Roll) → IsWellFormed r'.status → Leaves (loop (body j) rest r'))
      → Leaves (elim o [
        | none ↦ loop (body j) rest r
        | some st ↦ elim (body j t spec st r) [
          | next r' ↦ loop (body j) rest r'
          | returned r' ↦ returned r'
          | refused r' ↦ refused r'
          | panics ↦ panics
        ]
      ])
  Leaves-entry none t spec rest r v k = k r v
  Leaves-entry (some st) t spec rest r v k =
      Leaves-next (body j t spec st r) rest (body-Leaves t spec st r v) k

  loop-Leaves : (specs : Specs) (r : Roll) → IsWellFormed r.status → Leaves (loop (body j) specs r)
  unfolding loop
  loop-Leaves [] r v = goes_on v
  loop-Leaves ((t, spec) ∷ rest) r v =
      Leaves-entry (lookup t r.status.replica_statuses) t spec rest r v (loop-Leaves rest)

-- The status ends finished, or not restarting.
pub data IsSettled (r : Roll) : Type 0 where
  has_ended : is_finished r.status ≡ true → IsSettled r
  not_restarting : is_restarting r.status ≡ false → IsSettled r

settles :
    (now : ℕ) (msg : String) (r : Roll) → IsWellFormed r.status → IsSettled (mark_running now msg r)
unfolding mark_running
settles now msg r v = elim (Bool-cases (is_finished r.status)) [
  | inl e ↦ has_ended (rw (update_finished now r.status running job_running_reason msg e) e)
  | inr n ↦ not_restarting (
      apart (update_job_conditions now r.status running job_running_reason msg)
        (update_job_conditions-IsWellFormed now r.status running job_running_reason msg v)
        (has_condition-update_self now r.status running job_running_reason msg n))
]

settles_after :
    (now : ℕ) (msg : String) (f : Flow)
    → Leaves f
    → FlowAll IsSettled (elim f [
      | next r ↦ returned (mark_running now msg r)
      | returned r ↦ returned r
      | refused r ↦ refused r
      | panics ↦ panics
    ])
settles_after now msg (next r) (goes_on v) = at_returned (settles now msg r v)
settles_after now msg (returned r) (ends e) = at_returned (has_ended e)
settles_after now msg (refused r) l = elim l [ ]
settles_after now msg panics l = elim l [ ]

-- Updating the status of an XGBoostJob always leaves it finished or without a true Restarting
-- condition, also when replicas have failed and the job restarts: the running condition that
-- follows the loop takes the restarting one away.
pub update_job_status-IsSettled :
    (now : ℕ) (name : String) (stored : Option ℕ) (specs : Specs) (restart : Bool) (s : JobStatus)
    → IsWellFormed s
    → FlowAll IsSettled (update_job_status now name stored specs restart s)
unfolding update_job_status start
update_job_status-IsSettled now name stored specs restart s v =
    settles_after now _ _ (loop-Leaves _ specs (start s) v)
