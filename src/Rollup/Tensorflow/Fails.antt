-- ===== src/Rollup/Tensorflow/Fails.antt =====
-- When the status of a TFJob says that it has failed, and how that depends on the order.
use kubedl.Prelude.{
  ℕ, String, Bool, true, false, ◌&&◌, not, Option, some, List, ◌≡◌, refl, arith, str_eq, if_rule,
  if_keeps, ltb, ◌<◌,
}
use mathlib.Core.List.{Memᴰ}
use kubedl.Prelude.Map.{lookup}
use kubedl.Api.{JobStatus, ReplicaSpec, ReplicaStatus, SuccessPolicy, replica_type_ai_master}
use kubedl.Conditions.Invariant.{is_finished}
use kubedl.Rollup.{Roll, Specs, start, acknowledge}
use kubedl.Kube.{Pod}
use kubedl.Rollup.Reaches.{GoesOn, on, loop_hits}
use kubedl.Rollup.Finishes.{
  running_stays, restarting_stays, succeeded_stays, failed_finishes, running-IsSame,
  restarting-IsSame, succeeded-IsSame, failed-IsSame, IsSame,
}
use kubedl.Rollup.Tensorflow.{
  Job, body, follow_chief, react, has_chief, job_of, update_general_job_status,
}

abbrev Finished : Roll → Type 0
Finished r = is_finished r.status ≡ true

module _ (j : Job) where
  follow_chief_stays :
      (rtype : String) (spec : ReplicaSpec) (st : ReplicaStatus) (r : Roll)
      → Finished r
      → Finished (follow_chief j rtype spec st r)
  unfolding follow_chief
  follow_chief_stays rtype spec st r h =
      let v = if_keeps Finished (ltb 0 st.active) (running_stays j.now r h _) h in
      if_keeps Finished _ (if_keeps Finished _ (succeeded_stays j.now _ v _) v) h

  react_stays :
      (rtype : String) (st : ReplicaStatus) (r : Roll) → Finished r → Finished (react j rtype st r)
  unfolding react
  react_stays rtype st r h =
      if_keeps Finished _
        (if_keeps Finished _ (restarting_stays j.now r h _ _ _ _) (failed_finishes j.now _ _ _ _ r))
        h

  react_ends :
      (rtype : String) (st : ReplicaStatus) (r : Roll)
      → 0 < st.failed
      → (j.restart && not (str_eq rtype replica_type_ai_master)) ≡ false
      → Finished (react j rtype st r)
  unfolding react
  react_ends rtype st r h k =
      if_rule Finished (ltb 0 st.failed)
        (λ _.
          if_rule Finished (j.restart && not (str_eq rtype replica_type_ai_master))
            (λ e. absurd (cc)) (λ _. failed_finishes j.now _ _ _ _ r))
        (λ e. absurd (ground arith))

  module _ (statuses : List (String × ReplicaStatus)) where
    abbrev Same : Roll → Type 0
    Same = IsSame statuses

    follow_chief-Same :
        (rtype : String) (spec : ReplicaSpec) (st : ReplicaStatus) (r : Roll)
        → Same r
        → Same (follow_chief j rtype spec st r)
    unfolding follow_chief
    follow_chief-Same rtype spec st r h =
        let v = if_keeps Same (ltb 0 st.active) (running-IsSame statuses j.now r h _) h in
        if_keeps Same _ (if_keeps Same _ (succeeded-IsSame statuses j.now _ v _) v) h

    react-Same :
        (rtype : String) (st : ReplicaStatus) (r : Roll) → Same r → Same (react j rtype st r)
    unfolding react
    react-Same rtype st r h =
        if_keeps Same _
          (if_keeps Same _ (restarting-IsSame statuses j.now r h _ _ _ _)
            (failed-IsSame statuses j.now r h _ _ _ _))
          h

  with_chief :
      (P : Roll → Type 0) (rtype : String) (spec : ReplicaSpec) (st : ReplicaStatus) (r : Roll)
      → has_chief j ≡ true
      → P (react j rtype st (follow_chief j rtype spec st r))
      → GoesOn P (body j rtype spec st r)
  unfolding body
  with_chief P rtype spec st r c p = rw c (on p)

-- A TFJob with a chief, a master or an AIMaster that has failed replicas of any type and is not to
-- restart them (or they are the AIMaster's) is finished after the update, in whatever order the
-- replica types are visited.
pub update_general_job_status_ends :
    (now : ℕ) (name : String) (policy : Option SuccessPolicy) (specs : Specs) (restart : Bool)
    (ps : List Pod) (s : JobStatus) (rtype : String) (spec : ReplicaSpec) (st : ReplicaStatus)
    → has_chief (job_of now name policy specs restart ps s) ≡ true
    → Memᴰ (rtype, spec) specs
    → lookup rtype s.replica_statuses ≡ some st
    → 0 < st.failed
    → (restart && not (str_eq rtype replica_type_ai_master)) ≡ false
    → GoesOn
        (λ r. is_finished r.status ≡ true)
        (update_general_job_status now name policy specs restart (some ps) s)
unfolding update_general_job_status start acknowledge job_of
update_general_job_status_ends now name policy specs restart ps s rtype spec st c m e f k =
    let j = job_of now name policy specs restart ps s in
    loop_hits (body j) Finished
      (λ t sp u r h.
        with_chief j Finished t sp u r c (react_stays j t u _ (follow_chief_stays j t sp u r h)))
      (Same j s.replica_statuses) rtype spec st
      (λ t sp u r h.
        with_chief j (Same j s.replica_statuses) t sp u r c (
          react-Same j s.replica_statuses t u _
            (follow_chief-Same j s.replica_statuses t sp u r h)))
      (λ r h. rw h.same e)
      (λ r h. with_chief j Finished rtype spec st r c (react_ends j rtype st _ f k)) specs m _
      (record { same = refl })
