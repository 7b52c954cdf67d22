-- ===== src/Rollup/Finishes.antt =====
-- A finished job stays finished under each of the four changes, and a failure finishes it.
use kubedl.Prelude.{◌∙◌, ◌⊎◌, ℕ, String, true, List, ◌≡◌, refl, inl, inr, arith, Bool-cases}
use kubedl.Api.{JobConditionType, running, restarting, succeeded, failed, JobStatus, ReplicaStatus}
use kubedl.Conditions.{has_condition, update_job_conditions}
use kubedl.Conditions.Invariant.{is_finished}
use kubedl.Rollup.{
  Roll, Previous, complete, mark_running, mark_succeeded, mark_restarting, mark_failed,
}
use kubedl.Rollup.Laws.{has_condition-update_self, update_finished, update_keeps}

-- Whether it has finished does not depend on the completion time.
finished_complete : (now : ℕ) (s : JobStatus) → is_finished (complete now s) ≡ is_finished s
unfolding has_condition
finished_complete now s = refl

pub update_stays :
    (now : ℕ) (s : JobStatus) (t : JobConditionType) (r m : String)
    → is_finished s ≡ true
    → is_finished (update_job_conditions now s t r m) ≡ true
update_stays now s t r m h = rw (update_finished now s t r m h) h

complete_stays :
    (now : ℕ) (s : JobStatus) (t : JobConditionType) (r m : String)
    → is_finished s ≡ true
    → is_finished (update_job_conditions now (complete now s) t r m) ≡ true
complete_stays now s t r m h =
    update_stays now (complete now s) t r m (rw (finished_complete now s) h)

module _ (now : ℕ) (r : Roll) (h : is_finished r.status ≡ true) where
  pub running_stays : (msg : String) → is_finished (mark_running now msg r).status ≡ true
  unfolding mark_running
  running_stays msg = update_stays now r.status running _ msg h

  pub restarting_stays :
      (event reason msg : String) (p : Previous)
      → is_finished (mark_restarting now event reason msg p r).status ≡ true
  unfolding mark_restarting
  restarting_stays event reason msg p = update_stays now r.status restarting reason msg h

  pub succeeded_stays : (msg : String) → is_finished (mark_succeeded now msg r).status ≡ true
  unfolding mark_succeeded
  succeeded_stays msg = complete_stays now r.status succeeded _ msg h

pub ends_by :
    (now : ℕ) (s : JobStatus) (t : JobConditionType) (r m : String)
    → (t ≡ failed) ⊎ (t ≡ succeeded)
    → is_finished (update_job_conditions now s t r m) ≡ true
ends_by now s t r m h = elim (Bool-cases (is_finished s)) [
  | inl end ↦ update_stays now s t r m end
  | inr open_job ↦ ground (arith, has_condition-update_self now s t r m open_job)
]

pub failed_finishes :
    (now : ℕ) (event reason msg : String) (p : Previous) (r : Roll)
    → is_finished (mark_failed now event reason msg p r).status ≡ true
unfolding mark_failed
failed_finishes now event reason msg p r =
    ends_by now (complete now r.status) failed reason msg (inl refl)

-- The replica statuses are these. The four changes leave them alone.
pub record IsSame (statuses : List (String × ReplicaStatus)) (r : Roll) : Type 0 where
  pub same : r.status.replica_statuses ≡ statuses

module _ (statuses : List (String × ReplicaStatus)) (now : ℕ) (r : Roll)
    (h : IsSame statuses r) where
  pub running-IsSame : (msg : String) → IsSame statuses (mark_running now msg r)
  unfolding mark_running
  running-IsSame msg = record { same = (update_keeps now r.status running _ msg).0 ∙ h.same }

  pub restarting-IsSame :
      (event reason msg : String) (p : Previous)
      → IsSame statuses (mark_restarting now event reason msg p r)
  unfolding mark_restarting
  restarting-IsSame event reason msg p = record {
    same = (update_keeps now r.status restarting reason msg).0 ∙ h.same;
  }

  pub succeeded-IsSame : (msg : String) → IsSame statuses (mark_succeeded now msg r)
  unfolding mark_succeeded
  succeeded-IsSame msg = record {
    same = (update_keeps now (complete now r.status) succeeded _ msg).0 ∙ h.same;
  }

  pub failed-IsSame :
      (event reason msg : String) (p : Previous)
      → IsSame statuses (mark_failed now event reason msg p r)
  unfolding mark_failed
  failed-IsSame event reason msg p = record {
    same = (update_keeps now (complete now r.status) failed reason msg).0 ∙ h.same;
  }
