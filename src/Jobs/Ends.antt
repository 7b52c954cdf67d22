-- ===== src/Jobs/Ends.antt =====
-- What the branch for a job that has ended writes.
use kubedl.Prelude.{
  ℕ, String, true, Option, none, some, List, [], ◌∷◌, ◌≡◌, refl, arith, is_some, if_rule, if_keeps,
  inl, inr, Option-cases, some_rule, none_rule, ap, ◌∙◌,
}
use kubedl.Api.{failed, JobStatus, ReplicaStatus}
use kubedl.Conditions.{is_succeeded, has_condition}
use kubedl.Conditions.Invariant.{is_finished, IsWellFormed, update_job_conditions-IsWellFormed}
use kubedl.Kube.{Pod}
use kubedl.Rollup.{complete}
use kubedl.Rollup.Finishes.{ends_by}
use kubedl.Rollup.Laws.{update_keeps}
use kubedl.Jobs.{
  RunPolicy, Limit, within_limits, past_backoff, past_deadline, JobCall, delete_pods_and_services,
  CleanUp, no_ttl, no_completion_time, delete_refused, job_deleted, requeue_after, cleanup_job,
  get_total_active_replicas,
}
use kubedl.Jobs.Terminate.{
  Answers, Ended, stopped, to_write, on_deadline, exceeds, fail_job, settle, named, end_job,
  after_cleanup, terminate,
}

-- The status that ends a job: well formed; finished, with a completion time, where the job was past
-- a limit; and with no active replicas where the job has succeeded.
pub record IsFinal (limit : Limit) (s : JobStatus) : Type 0 where
  pub well : IsWellFormed s
  pub ended : exceeds limit ≡ true → is_finished s ≡ true
  pub timed : exceeds limit ≡ true → is_some s.completion_time ≡ true
  pub idle : is_succeeded s ≡ true → get_total_active_replicas s.replica_statuses ≡ 0

-- A property of the status that is written, if one is.
pub data OnWrite (P : JobStatus → Type 0) : Ended → Type 0 where
  at_stop : {calls : List JobCall} → OnWrite P (stopped calls)
  at_write : {s : JobStatus} {calls : List JobCall} → P s → OnWrite P (to_write s calls)

settle_idle : (m : List (String × ReplicaStatus)) → get_total_active_replicas (settle m) ≡ 0
unfolding settle get_total_active_replicas
settle_idle [] = refl
settle_idle ((t, st) ∷ rest) = omega (arith, settle_idle rest)

-- The fields that the conditions do not read.
pub same_conditions :
    (s s' : JobStatus) → s'.conditions ≡ s.conditions → IsWellFormed s → IsWellFormed s'
unfolding has_condition
same_conditions s s' e v = record {
  distinct = rw e v.distinct;
  exclusive = rw e v.exclusive;
  one_end = rw e v.one_end;
  not_running = rw e v.not_running;
}

-- What failing the job gives it where it was past a limit.
record Failed (limit : Limit) (s : JobStatus) : Type 0 where
  well : IsWellFormed s
  ended : exceeds limit ≡ true → is_finished s ≡ true
  timed : exceeds limit ≡ true → is_some s.completion_time ≡ true

fail_job-Failed :
    (now : ℕ) (name : String) (limit : Limit) (s : JobStatus)
    → IsWellFormed s
    → Failed limit (fail_job now name limit s)
unfolding fail_job
fail_job-Failed now name limit s v =
    if_rule (Failed limit) (exceeds limit)
      (λ e. record {
        well =
            update_job_conditions-IsWellFormed now (complete now s) failed _ _
              (same_conditions s (complete now s) refl v);
        ended = λ h. ends_by now (complete now s) failed _ _ (inl refl);
        timed = λ h.
            ap (λ (t : Option ℕ). is_some t) (update_keeps now (complete now s) failed _ _).1
            ∙ ground arith;
      })
      (λ n. record { well = v; ended = λ h. absurd (cc); timed = λ h. absurd (cc) })

settled-IsFinal :
    (limit : Limit) (s : JobStatus) (n : Option String)
    → Failed limit s
    → IsFinal limit (named n (record s { replica_statuses = settle s.replica_statuses }))
unfolding has_condition
settled-IsFinal limit s none v = record {
  well = same_conditions s _ refl v.well;
  ended = v.ended;
  timed = v.timed;
  idle = λ h. settle_idle s.replica_statuses;
}
settled-IsFinal limit s (some n) v = record {
  well = same_conditions s _ refl v.well;
  ended = v.ended;
  timed = v.timed;
  idle = λ h. settle_idle s.replica_statuses;
}

end_job-IsFinal :
    (now : ℕ) (answers : Answers) (name : String) (limit : Limit) (calls : List JobCall)
    (s : JobStatus)
    → IsWellFormed s
    → OnWrite (IsFinal limit) (end_job now answers name limit calls s)
unfolding end_job
end_job-IsFinal now answers name limit calls s v =
    let f = fail_job-Failed now name limit s v in
    let P = OnWrite (IsFinal limit) in
    if_rule P (is_succeeded (fail_job now name limit s))
      (λ h. elim (Option-cases answers.model) [
        | inl e ↦ none_rule P answers.model _ _ e at_stop
        | inr (n, e) ↦ some_rule P answers.model n _ _ e (
            if_keeps P answers.cache
              (at_write (settled-IsFinal limit (fail_job now name limit s) n f)) at_stop)
      ])
      (λ h.
        if_keeps P answers.cache
          (at_write
            (record { well = f.well; ended = f.ended; timed = f.timed; idle = λ k. absurd (cc) }))
          at_stop)

after_cleanup-IsFinal :
    (now : ℕ) (answers : Answers) (name : String) (limit : Limit) (calls : List JobCall)
    (s : JobStatus) (c : CleanUp)
    → IsWellFormed s
    → OnWrite (IsFinal limit) (after_cleanup now answers name limit calls s c)
after_cleanup-IsFinal now answers name limit calls s no_completion_time v = at_stop
after_cleanup-IsFinal now answers name limit calls s delete_refused v = at_stop
after_cleanup-IsFinal now answers name limit calls s job_deleted v =
    if_keeps (OnWrite (IsFinal limit)) answers.gang (end_job-IsFinal now answers name limit _ s v)
      at_stop
after_cleanup-IsFinal now answers name limit calls s no_ttl v =
    if_keeps (OnWrite (IsFinal limit)) answers.gang (end_job-IsFinal now answers name limit _ s v)
      at_stop
after_cleanup-IsFinal now answers name limit calls s (requeue_after n) v =
    if_keeps (OnWrite (IsFinal limit)) answers.gang (end_job-IsFinal now answers name limit _ s v)
      at_stop

on_deadline-IsWellFormed :
    (now : ℕ) (limit : Limit) (s : JobStatus)
    → IsWellFormed s
    → IsWellFormed (on_deadline now limit s)
unfolding on_deadline
on_deadline-IsWellFormed now within_limits s v = v
on_deadline-IsWellFormed now past_backoff s v = v
on_deadline-IsWellFormed now past_deadline s v = same_conditions s _ refl v

-- The status that is written for a job that has ended, if one is, has well-formed conditions if it
-- had before; it is finished and has a completion time where the job was past a limit; and no
-- replica of a job that has succeeded counts as active.
pub terminate-IsFinal :
    (now later : ℕ) (answers : Answers) (name : String) (policy : RunPolicy) (limit : Limit)
    (ps : List Pod) (s : JobStatus)
    → IsWellFormed s
    → OnWrite (IsFinal limit) (terminate now later answers name policy limit ps s)
unfolding terminate
terminate-IsFinal now later answers name policy limit ps s v =
    if_keeps (OnWrite (IsFinal limit)) _ at_stop (
      after_cleanup-IsFinal now answers name limit _ (on_deadline now limit s) _
        (on_deadline-IsWellFormed now limit s v))

-- A job that is past its backoff limit, has a time to live and no completion time yet is never
-- marked as failed: whatever the answers, the branch ends with an error and writes no status.
pub terminate_backoff_ttl :
    (now later : ℕ) (answers : Answers) (name : String) (policy : RunPolicy) (ps : List Pod)
    (s : JobStatus) (ttl : ℕ)
    → policy.ttl_seconds_after_finished ≡ some ttl
    → s.completion_time ≡ none
    → (calls : List JobCall) × (terminate now later answers name policy past_backoff ps s
        ≡ stopped calls)
unfolding terminate on_deadline cleanup_job
terminate_backoff_ttl now later answers name policy ps s ttl e f =
    let d = delete_pods_and_services answers.pods answers.services policy.clean_pod_policy ps in
    (
      d.calls,
      if_rule (λ x. x ≡ stopped d.calls) d.error (λ h. refl)
          (λ h.
            some_rule
              (λ c. after_cleanup now answers name past_backoff d.calls s c ≡ stopped d.calls)
              policy.ttl_seconds_after_finished ttl _ _ e
              (none_rule
                (λ c. after_cleanup now answers name past_backoff d.calls s c ≡ stopped d.calls)
                s.completion_time _ _ f refl)),
    )
