-- ===== src/Rollup/Tensorflow/Succeeds.antt =====
-- What an update keeps of the status of a TFJob, and when it says that the job has succeeded.
use kubedl.Prelude.{
  ℕ, String, Bool, true, false, ◌&&◌, Option, none, some, List, ◌≡◌, refl, ◌⊎◌, arith,
  if◌then◌else◌, str_eq, if_rule, if_keeps,
}
use mathlib.Core.List.{Memᴰ}
use kubedl.Prelude.Map.{lookup, has_key}
use kubedl.Prelude.Int.{sub_ℕ, is_zero}
use kubedl.Api.{
  JobStatus, ReplicaSpec, ReplicaStatus, SuccessPolicy, all_workers, success_policy_eq,
  replica_type_ai_master,
}
use kubedl.Conditions.{is_succeeded}
use kubedl.Rollup.{Roll, Specs, Flow, next, returned, refused, panics, start, mark_running, loop}
use kubedl.Rollup.Laws.{FlowAll, at_next, at_refused, at_panics, loop_rule, flow_map}
use kubedl.Rollup.Keeps.{
  IsKept, IsSound, Sound-IsKept, Caused-IsKept, acknowledge-IsSound, acknowledge-IsCaused,
}
use kubedl.Kube.{Pod}
use kubedl.Rollup.Tensorflow.{
  Job, body, follow_chief, follow_workers, react, has_chief, job_of, update_general_job_status,
  is_chief_or_master, replica_type_worker, chief_done, wants_all_workers,
}

-- Why a TFJob has succeeded: a chief or master type with all of its replicas succeeded, and then
-- all workers too where the policy asks for them and the type is not the AIMaster; in a job with no
-- such type, all workers; or worker 0, where the policy does not ask for all.
pub data SucceedsBy (statuses : List (String × ReplicaStatus)) (j : Job) : Type 0 where
  by_chief :
      (rtype : String) (spec : ReplicaSpec) (st : ReplicaStatus)
      → Memᴰ (rtype, spec) j.specs
      → lookup rtype statuses ≡ some st
      → has_chief j ≡ true
      → is_chief_or_master rtype ≡ true
      → st.succeeded ≡ spec.replicas
      → (j.all_workers_succeed ≡ true)
        ⊎ (str_eq rtype replica_type_ai_master ≡ true)
        ⊎ (has_key replica_type_worker j.specs && wants_all_workers j.success_policy) ≡ false
      → SucceedsBy statuses j
  by_workers :
      (rtype : String) (spec : ReplicaSpec) (st : ReplicaStatus)
      → Memᴰ (rtype, spec) j.specs
      → lookup rtype statuses ≡ some st
      → has_chief j ≡ false
      → str_eq rtype replica_type_worker ≡ true
      → st.succeeded ≡ spec.replicas
      → SucceedsBy statuses j
  by_worker0 :
      (p : SuccessPolicy)
      → has_chief j ≡ false
      → j.worker0_completed ≡ true
      → j.success_policy ≡ some p
      → success_policy_eq p all_workers ≡ false
      → SucceedsBy statuses j

chief_cause :
    (j : Job) (rtype : String) (spec : ReplicaSpec) (st : ReplicaStatus)
    → chief_done j rtype spec st ≡ true
    → (st.succeeded ≡ spec.replicas)
      × ((j.all_workers_succeed ≡ true)
          ⊎ (str_eq rtype replica_type_ai_master ≡ true)
          ⊎ (has_key replica_type_worker j.specs && wants_all_workers j.success_policy) ≡ false)
chief_cause j rtype spec st h = ground arith

all_of_zero : (a b : ℕ) → is_zero (sub_ℕ a b) ≡ true → b ≡ a
all_of_zero a b h = ground arith

module _ (statuses : List (String × ReplicaStatus)) (j : Job) (P : Roll → Type 0)
    (k : IsKept statuses j.now (SucceedsBy statuses j) P) where
  on_running :
      (b : Bool) (msg : String) (r : Roll) → P r → P (if b then mark_running j.now msg r else r)
  on_running b msg r v = if_keeps P b (k.by_running msg r v) v

  on_chief :
      (rtype : String) (spec : ReplicaSpec) (st : ReplicaStatus) (r : Roll)
      → Memᴰ (rtype, spec) j.specs
      → lookup rtype statuses ≡ some st
      → has_chief j ≡ true
      → P r
      → P (follow_chief j rtype spec st r)
  unfolding follow_chief
  on_chief rtype spec st r m e c v =
      let v' = on_running _ _ r v in
      if_rule P _
        (λ t.
          if_rule P (chief_done j rtype spec st)
            (λ d.
              let (all, why) = chief_cause j rtype spec st d in
              k.by_succeeded (by_chief rtype spec st m e c t all why) _ _ v')
            (λ _. v'))
        (λ _. v)

  on_policy :
      (o : Option SuccessPolicy) (go_on succeed : Flow)
      → FlowAll P go_on
      → ((p : SuccessPolicy)
          → o ≡ some p
          → success_policy_eq p all_workers ≡ false
          → FlowAll P succeed)
      → FlowAll P (elim o [
        | none ↦ panics
        | some p ↦ if success_policy_eq p all_workers then go_on else succeed
      ])
  on_policy none go_on succeed p q = at_panics
  on_policy (some p) go_on succeed h q = if_rule (FlowAll P) _ (λ _. h) (q p refl)

  on_workers :
      (rtype : String) (spec : ReplicaSpec) (st : ReplicaStatus) (r : Roll)
      → Memᴰ (rtype, spec) j.specs
      → lookup rtype statuses ≡ some st
      → has_chief j ≡ false
      → str_eq rtype replica_type_worker ≡ true
      → P r
      → FlowAll P (follow_workers j spec st r)
  unfolding follow_workers
  on_workers rtype spec st r m e c t v =
      let on = at_next (on_running _ _ r v) in
      if_rule (FlowAll P) _
        (λ d. at_next (k.by_succeeded (by_workers rtype spec st m e c t (all_of_zero _ _ d)) _ r v))
        (λ _.
          if_rule (FlowAll P) _
            (λ w.
              on_policy j.success_policy _ _ on
                (λ p q n. at_next (k.by_succeeded (by_worker0 p c w q n) _ r v)))
            (λ _. on))

  on_failures : (rtype : String) (st : ReplicaStatus) (r : Roll) → P r → P (react j rtype st r)
  unfolding react
  on_failures rtype st r v =
      if_keeps P _ (if_keeps P _ (k.by_restarting _ _ _ _ r v) (k.by_failed _ _ _ _ r v)) v

  then_react :
      (f : Flow) (rtype : String) (st : ReplicaStatus)
      → FlowAll P f
      → FlowAll P (elim f [ next r' ↦ next (react j rtype st r') | g ↦ g ])
  then_react (next r) rtype st (at_next v) = at_next (on_failures rtype st r v)
  then_react (returned r) rtype st v = v
  then_react (refused r) rtype st v = v
  then_react panics rtype st v = v

  body_rule :
      (rtype : String) (spec : ReplicaSpec) (st : ReplicaStatus) (r : Roll)
      → Memᴰ (rtype, spec) j.specs
      → lookup rtype statuses ≡ some st
      → P r
      → FlowAll P (body j rtype spec st r)
  unfolding body
  body_rule rtype spec st r m e v =
      if_rule (FlowAll P) _
        (λ c. at_next (on_failures rtype st _ (on_chief rtype spec st r m e c v)))
        (λ c.
          if_rule (FlowAll P) _ (λ t. then_react _ rtype st (on_workers rtype spec st r m e c t v))
            (λ _. at_next (on_failures rtype st r v)))

  pub status_rule : (r : Roll) → P r → FlowAll P (loop (body j) j.specs r)
  status_rule =
      loop_rule P (body j) j.specs
        (λ t spec st r m e v. body_rule t spec st r m (rw (k.same r v) at e) v)

-- Updating the status of a TFJob keeps the conditions well formed, leaves the replica statuses
-- alone, and gives a job that it finishes a completion time, in whatever order the replica types
-- are visited.
pub update_general_job_status-IsSound :
    (now : ℕ) (name : String) (policy : Option SuccessPolicy) (specs : Specs) (restart : Bool)
    (workers : Option (List Pod)) (s : JobStatus)
    → IsSound s.replica_statuses s
    → FlowAll
        (λ r. IsSound s.replica_statuses r.status)
        (update_general_job_status now name policy specs restart workers s)
unfolding update_general_job_status start job_of
update_general_job_status-IsSound now name policy specs restart none s v = at_refused v
update_general_job_status-IsSound now name policy specs restart (some ps) s v =
    let j = job_of now name policy specs restart ps s in
    status_rule s.replica_statuses j _ (Sound-IsKept s.replica_statuses now _) _
      (acknowledge-IsSound now s v)

-- A TFJob that had not succeeded is marked as succeeded only for one of the causes of SucceedsBy.
pub update_general_job_status-SucceedsBy :
    (now : ℕ) (name : String) (policy : Option SuccessPolicy) (specs : Specs) (restart : Bool)
    (ps : List Pod) (s : JobStatus)
    → is_succeeded s ≡ false
    → FlowAll
        (λ r.
          is_succeeded r.status ≡ true
          → SucceedsBy s.replica_statuses (job_of now name policy specs restart ps s))
        (update_general_job_status now name policy specs restart (some ps) s)
unfolding update_general_job_status job_of
update_general_job_status-SucceedsBy now name policy specs restart ps s h =
    let j = job_of now name policy specs restart ps s in
    flow_map _ _ (λ r v. v.cause) _
      (status_rule s.replica_statuses j _ (Caused-IsKept s.replica_statuses _ now) _
        (acknowledge-IsCaused now _ s h))
