-- ===== src/Rollup/Keeps.antt =====
-- The invariant of a roll-up: the conditions are well formed, the replica statuses are not touched,
-- and a finished job has a completion time. Each of the four changes keeps it.
use kubedl.Prelude.{ℕ, String, true, false, List, ◌≡◌, refl, arith, is_some}
use kubedl.Api.{
  JobConditionType, running, restarting, succeeded, failed, JobStatus, ReplicaStatus, type_eq,
}
use kubedl.Conditions.{is_succeeded, has_condition, update_job_conditions}
use kubedl.Conditions.Invariant.{is_finished, IsWellFormed, update_job_conditions-IsWellFormed}
use kubedl.Rollup.{
  Roll, Previous, start, acknowledge, complete, mark_running, mark_succeeded, mark_restarting,
  mark_failed,
}
use kubedl.Rollup.Laws.{has_condition-update, update_keeps}

pub record IsSound (statuses : List (String × ReplicaStatus)) (s : JobStatus) : Type 0 where
  pub well : IsWellFormed s
  pub same : s.replica_statuses ≡ statuses
  pub ended : is_finished s ≡ true → is_some s.completion_time ≡ true

-- The completion time and the start time say nothing about the conditions.
complete-IsWellFormed : (now : ℕ) (s : JobStatus) → IsWellFormed s → IsWellFormed (complete now s)
unfolding has_condition
complete-IsWellFormed now s v = record {
  distinct = v.distinct;
  exclusive = v.exclusive;
  one_end = v.one_end;
  not_running = v.not_running;
}

pub acknowledge-IsWellFormed :
    (now : ℕ) (s : JobStatus) → IsWellFormed s → IsWellFormed (acknowledge now s)
unfolding has_condition acknowledge
acknowledge-IsWellFormed now s v = record {
  distinct = v.distinct;
  exclusive = v.exclusive;
  one_end = v.one_end;
  not_running = v.not_running;
}

completed : (now : ℕ) (s : JobStatus) → is_some (complete now s).completion_time ≡ true
completed now s = ground arith

-- An update to Running or Restarting ends no job.
pub unfinished-update :
    (now : ℕ) (s : JobStatus) (t : JobConditionType) (r m : String)
    → type_eq t failed ≡ false
    → type_eq t succeeded ≡ false
    → is_finished (update_job_conditions now s t r m) ≡ true
    → is_finished s ≡ true
unfinished-update now s t r m h k e =
    ground
      (arith, has_condition-update now s t r m failed, has_condition-update now s t r m succeeded)

module _ (statuses : List (String × ReplicaStatus)) (now : ℕ) where
  go_on-IsSound :
      (t : JobConditionType) (reason msg : String) (s : JobStatus)
      → type_eq t failed ≡ false
      → type_eq t succeeded ≡ false
      → IsSound statuses s
      → IsSound statuses (update_job_conditions now s t reason msg)
  go_on-IsSound t reason msg s h k v = record {
    well = update_job_conditions-IsWellFormed now s t reason msg v.well;
    same = ground (arith, update_keeps now s t reason msg, v.same);
    ended = λ e.
        let open_job = unfinished-update now s t reason msg h k e in
        ground (arith, update_keeps now s t reason msg, v.ended open_job);
  }

  finish-IsSound :
      (t : JobConditionType) (reason msg : String) (s : JobStatus)
      → IsSound statuses s
      → IsSound statuses (update_job_conditions now (complete now s) t reason msg)
  finish-IsSound t reason msg s v = record {
    well =
        update_job_conditions-IsWellFormed now (complete now s) t reason msg
          (complete-IsWellFormed now s v.well);
    same = ground (arith, update_keeps now (complete now s) t reason msg, v.same);
    ended = λ _. ground (arith, update_keeps now (complete now s) t reason msg);
  }

  pub mark_running-IsSound :
      (msg : String) (r : Roll)
      → IsSound statuses r.status
      → IsSound statuses (mark_running now msg r).status
  unfolding mark_running type_eq
  mark_running-IsSound msg r = go_on-IsSound running _ msg r.status refl refl

  pub mark_restarting-IsSound :
      (event reason msg : String) (p : Previous) (r : Roll)
      → IsSound statuses r.status
      → IsSound statuses (mark_restarting now event reason msg p r).status
  unfolding mark_restarting type_eq
  mark_restarting-IsSound event reason msg p r =
      go_on-IsSound restarting reason msg r.status refl refl

  pub mark_succeeded-IsSound :
      (msg : String) (r : Roll)
      → IsSound statuses r.status
      → IsSound statuses (mark_succeeded now msg r).status
  unfolding mark_succeeded
  mark_succeeded-IsSound msg r = finish-IsSound succeeded _ msg r.status

  pub mark_failed-IsSound :
      (event reason msg : String) (p : Previous) (r : Roll)
      → IsSound statuses r.status
      → IsSound statuses (mark_failed now event reason msg p r).status
  unfolding mark_failed
  mark_failed-IsSound event reason msg p r = finish-IsSound failed reason msg r.status

pub acknowledge-IsSound :
    (now : ℕ) (s : JobStatus)
    → IsSound s.replica_statuses s
    → IsSound s.replica_statuses (start (acknowledge now s)).status
unfolding start acknowledge has_condition
acknowledge-IsSound now s v = record {
  well = acknowledge-IsWellFormed now s v.well;
  same = refl;
  ended = v.ended;
}

-- A property of the state of a roll-up that the four changes keep: the change to Succeeded for a
-- cause `C`, the others always.
pub record IsKept (statuses : List (String × ReplicaStatus)) (now : ℕ) (C : Type 0)
    (P : Roll → Type 0) : Type 0 where
  pub same : (r : Roll) → P r → r.status.replica_statuses ≡ statuses
  pub by_running : (msg : String) (r : Roll) → P r → P (mark_running now msg r)
  pub by_restarting :
      (event reason msg : String) (p : Previous) (r : Roll)
      → P r
      → P (mark_restarting now event reason msg p r)
  pub by_failed :
      (event reason msg : String) (p : Previous) (r : Roll)
      → P r
      → P (mark_failed now event reason msg p r)
  pub by_succeeded : C → (msg : String) (r : Roll) → P r → P (mark_succeeded now msg r)

pub Sound-IsKept :
    (statuses : List (String × ReplicaStatus)) (now : ℕ) (C : Type 0)
    → IsKept statuses now C (λ r. IsSound statuses r.status)
Sound-IsKept statuses now C = record {
  same = λ r v. v.same;
  by_running = mark_running-IsSound statuses now;
  by_restarting = mark_restarting-IsSound statuses now;
  by_failed = mark_failed-IsSound statuses now;
  by_succeeded = λ _. mark_succeeded-IsSound statuses now;
}

-- The job has not succeeded, or there is a cause.
pub record IsCaused (statuses : List (String × ReplicaStatus)) (C : Type 0) (s : JobStatus)
    : Type 0 where
  pub same : s.replica_statuses ≡ statuses
  pub cause : is_succeeded s ≡ true → C

module _ (statuses : List (String × ReplicaStatus)) (C : Type 0) (now : ℕ) where
  update-IsCaused :
      (t : JobConditionType) (reason msg : String) (s : JobStatus)
      → type_eq t succeeded ≡ false
      → IsCaused statuses C s
      → IsCaused statuses C (update_job_conditions now s t reason msg)
  update-IsCaused t reason msg s k v = record {
    same = ground (arith, update_keeps now s t reason msg, v.same);
    cause = λ e. v.cause (ground (arith, has_condition-update now s t reason msg succeeded));
  }

  complete-IsCaused : (s : JobStatus) → IsCaused statuses C s → IsCaused statuses C (complete now s)
  unfolding has_condition
  complete-IsCaused s v = record { same = v.same; cause = v.cause }

  because-IsCaused :
      (reason msg : String) (s : JobStatus)
      → C
      → IsCaused statuses C s
      → IsCaused statuses C (update_job_conditions now s succeeded reason msg)
  because-IsCaused reason msg s c v = record {
    same = ground (arith, update_keeps now s succeeded reason msg, v.same);
    cause = λ _. c;
  }

  pub Caused-IsKept : IsKept statuses now C (λ r. IsCaused statuses C r.status)
  unfolding mark_running mark_restarting mark_failed mark_succeeded type_eq
  Caused-IsKept = record {
    same = λ r v. v.same;
    by_running = λ msg r v. update-IsCaused running _ msg r.status refl v;
    by_restarting = λ event reason msg p r v. update-IsCaused restarting reason msg r.status refl v;
    by_failed = λ event reason msg p r v.
        update-IsCaused failed reason msg (complete now r.status) refl
          (complete-IsCaused r.status v);
    by_succeeded = λ c msg r v.
        because-IsCaused _ msg (complete now r.status) c (complete-IsCaused r.status v);
  }

pub acknowledge-IsCaused :
    (now : ℕ) (C : Type 0) (s : JobStatus)
    → is_succeeded s ≡ false
    → IsCaused s.replica_statuses C (start (acknowledge now s)).status
unfolding start acknowledge has_condition
acknowledge-IsCaused now C s h = record { same = refl; cause = λ e. ground arith }
