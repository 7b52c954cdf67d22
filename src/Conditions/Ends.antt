-- ===== src/Conditions/Ends.antt =====
-- How updates of the conditions end a job.
use kubedl.Prelude.{ℕ, String, true, false, List, ◌≡◌, ◌⊎◌, inl, inr, ap, ◌∙◌, arith}
use kubedl.Api.{JobConditionType, succeeded, failed, JobStatus, type_eq}
use kubedl.Conditions.{is_failed, is_succeeded, update_job_conditions}
use kubedl.Conditions.Invariant.{is_finished}
use kubedl.Conditions.Counting.{eq_of_type_eq}
use kubedl.Conditions.Updates.{Update, apply_all, apply_all_finished}
use kubedl.Rollup.Laws.{has_condition-update, has_condition-update_self}

-- What an update of an open job to `t` makes of its end.
pub ends_open :
    (now : ℕ) (s : JobStatus) (t : JobConditionType) (r m : String)
    → is_finished s ≡ false
    → (is_succeeded (update_job_conditions now s t r m) ≡ type_eq t succeeded)
      × (is_failed (update_job_conditions now s t r m) ≡ type_eq t failed)
ends_open now s t r m h = (
  ground (
    arith,
    has_condition-update now s t r m succeeded,
    has_condition-update_self now s t r m,
    eq_of_type_eq t succeeded,
  ),
  ground (
    arith,
    has_condition-update now s t r m failed,
    has_condition-update_self now s t r m,
    eq_of_type_eq t failed,
  ),
)

ends_finished :
    (t : JobConditionType) (s : JobStatus)
    → (t ≡ succeeded) ⊎ (t ≡ failed)
    → is_succeeded s ≡ type_eq t succeeded
    → is_failed s ≡ type_eq t failed
    → is_finished s ≡ true
unfolding type_eq
ends_finished t s (inl e) h k =
    let done : is_succeeded s ≡ true = h ∙ ap (λ x. type_eq x succeeded) e in ground (arith, done)
ends_finished t s (inr e) h k =
    let done : is_failed s ≡ true = k ∙ ap (λ x. type_eq x failed) e in ground (arith, done)

-- Where a job that has not finished is updated to Succeeded or Failed, it has from then on exactly
-- that one of the two conditions: no sequence of updates afterwards changes its status in any way,
-- so it is never both, and the first outcome stays.
pub outcome_stays :
    (now : ℕ) (s : JobStatus) (t : JobConditionType) (reason msg : String) (us : List Update)
    → is_finished s ≡ false
    → (t ≡ succeeded) ⊎ (t ≡ failed)
    → (is_succeeded (apply_all (update_job_conditions now s t reason msg) us) ≡ type_eq t succeeded)
      × ((is_failed (apply_all (update_job_conditions now s t reason msg) us) ≡ type_eq t failed)
          × (apply_all (update_job_conditions now s t reason msg) us
              ≡ update_job_conditions now s t reason msg))
outcome_stays now s t reason msg us h e =
    let s' = update_job_conditions now s t reason msg in
    let v = ends_open now s t reason msg h in
    let k = apply_all_finished us s' (ends_finished t s' e v.0 v.1) in
    (ap is_succeeded k ∙ v.0, (ap is_failed k ∙ v.1, k))
