-- ===== src/Jobs/Reconcile/Tensorflow.antt =====
-- A reconciliation of a TFJob, from its pods to its conditions.
use kubedl.Prelude.{
  ℕ, String, Bool, true, false, Option, some, List, [], ◌≡◌, sym, ◌∙◌, elem, Distinct,
}
use mathlib.Core.List.{Memᴰ}
use kubedl.Prelude.Map.{lookup}
use kubedl.Api.{JobStatus, ReplicaSpec, ReplicaStatus, SuccessPolicy}
use kubedl.Conditions.{is_succeeded, has_condition}
use kubedl.Kube.{Pod}
use kubedl.Rollup.{Roll, Flow}
use kubedl.Rollup.Laws.{FlowAll, flow_map}
use kubedl.Rollup.Tensorflow.{job_of, update_general_job_status, worker0_completed}
use kubedl.Rollup.Tensorflow.Succeeds.{
  SucceedsBy, by_chief, by_workers, by_worker0, update_general_job_status-SucceedsBy,
}
use kubedl.Pods.Tally.{number, has_succeeded}
use kubedl.Jobs.Reconcile.{
  Setting, Pass, passed, frozen, failed_pass, Reconciled, rolled_up, not_rolled_up,
  waits_for_upstream, reconcile_types, reconcile_job,
}
use kubedl.Jobs.Reconcile.Counted.{
  counted_pods, IsCounted, Reconciles, OnPass, at_pass, reconcile_types-Reconciles,
}

-- The specifications are those of the order, each under one name, and none waits.
pub record IsComplete (c : Setting) : Type 0 where
  pub distinct : Distinct c.orders
  pub one :
      (t : String) (spec : ReplicaSpec) → Memᴰ (t, spec) c.specs → lookup t c.specs ≡ some spec
  pub ordered : (t : String) (spec : ReplicaSpec) → Memᴰ (t, spec) c.specs → elem t c.orders ≡ true
  pub ready :
      (t : String) (spec : ReplicaSpec) → Memᴰ (t, spec) c.specs → waits_for_upstream c spec ≡ false

-- What the pods say when a TFJob succeeds: of some replica type as many counted pods have succeeded
-- as it has replicas, or worker 0 has ended well.
pub data PodsSucceed (c : Setting) (workers : List Pod) : Type 0 where
  all_of :
      (t : String) (spec : ReplicaSpec)
      → Memᴰ (t, spec) c.specs
      → number has_succeeded (counted_pods c t spec) ≡ spec.replicas
      → PodsSucceed c workers
  worker0 : worker0_completed workers ≡ true → PodsSucceed c workers

-- A property of the roll-up, where the branch comes to it.
pub data OnRollup (P : Roll → Type 0) : Reconciled → Type 0 where
  at_rollup : {f : Flow} → FlowAll P f → OnRollup P (rolled_up f)
  without : OnRollup P not_rolled_up

same_tally :
    (c : Setting) (t : String) (spec : ReplicaSpec) (s : JobStatus) (st : ReplicaStatus)
    → IsCounted c t spec s
    → lookup t s.replica_statuses ≡ some st
    → st.succeeded ≡ spec.replicas
    → number has_succeeded (counted_pods c t spec) ≡ spec.replicas
same_tally c t spec s st v e h = sym v.tally.succeeded ∙ (one_status (sym v.found ∙ e) ∙ h)
  where
    one_status : {a b : ReplicaStatus} → some a ≡ some b → a.succeeded ≡ b.succeeded
    one_status k = cc

module _ (c : Setting) (now : ℕ) (name : String) (policy : Option SuccessPolicy)
    (workers : List Pod) (whole : IsComplete c) where
  of_cause :
      (restart : Bool) (s s' : JobStatus)
      → Reconciles c c.orders s s'
      → SucceedsBy s'.replica_statuses (job_of now name policy c.specs restart workers s')
      → PodsSucceed c workers
  unfolding job_of
  of_cause restart s s' v (by_chief t spec st m e _ _ h _) = all_of t spec m (
      same_tally c t spec s' st
        (v.counts t spec (whole.ordered t spec m) (whole.one t spec m) (whole.ready t spec m)) e h)
  of_cause restart s s' v (by_workers t spec st m e _ _ h) = all_of t spec m (
      same_tally c t spec s' st
        (v.counts t spec (whole.ordered t spec m) (whole.one t spec m) (whole.ready t spec m)) e h)
  of_cause restart s s' v (by_worker0 p _ h _ _) = worker0 h

  abbrev update : Bool → JobStatus → Flow
  update restart s = update_general_job_status now name policy c.specs restart (some workers) s

  still_open :
      (s s' : JobStatus)
      → Reconciles c c.orders s s'
      → is_succeeded s ≡ false
      → is_succeeded s' ≡ false
  unfolding has_condition
  still_open s s' v h = rw v.conditions h

  rolled :
      (s : JobStatus) (x : Pass)
      → is_succeeded s ≡ false
      → OnPass (Reconciles c c.orders s) x
      → OnRollup
          (λ r. is_succeeded r.status ≡ true → PodsSucceed c workers)
          (elim x [
            | passed s' restart calls ↦ rolled_up (update restart s')
            | frozen ↦ not_rolled_up
            | failed_pass ↦ not_rolled_up
          ])
  rolled s (passed s' restart calls) h (at_pass v) = at_rollup (
      flow_map _ _ (λ r k e. of_cause restart s s' v (k e)) _
        (update_general_job_status-SucceedsBy now name policy c.specs restart workers s'
          (still_open s s' v h)))
  rolled s frozen h p = without
  rolled s failed_pass h p = without

  -- A reconciliation of a TFJob that had not succeeded marks it as succeeded only if of some
  -- replica type as many pods, alone in the slice of an index below the replicas, have succeeded as
  -- the type has replicas, or worker 0 has ended well; where the order has all types of the job,
  -- each once, and none waits for its upstream types.
  pub reconcile_job-PodsSucceed :
      (s : JobStatus)
      → is_succeeded s ≡ false
      → OnRollup
          (λ r. is_succeeded r.status ≡ true → PodsSucceed c workers)
          (reconcile_job c
            (λ restart s'.
              update_general_job_status now name policy c.specs restart (some workers) s')
            s)
  unfolding reconcile_job
  reconcile_job-PodsSucceed s h =
      rolled s (reconcile_types c c.orders s false []) h
        (reconcile_types-Reconciles c s false whole.distinct)
