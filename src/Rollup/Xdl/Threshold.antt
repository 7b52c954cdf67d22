-- ===== src/Rollup/Xdl/Threshold.antt =====
-- When an update of the status of an XDLJob ends the job.
use kubedl.Prelude.{
  ℕ, ◌+◌, String, Bool, false, ◌||◌, ◌&&◌, not, Option, none, some, List, [], ◌∷◌, ◌≡◌, arith,
  if◌then◌else◌, ltb, leb, ◌*◌, ◌%◌,
}
use kubedl.Prelude.Map.{lookup}
use kubedl.Api.{succeeded, failed, ReplicaSpec, ReplicaStatus}
use kubedl.Conditions.{is_failed, is_succeeded}
use kubedl.Conditions.Invariant.{is_finished}
use kubedl.Rollup.{Roll, Specs}
use kubedl.Rollup.Xdl.{Job, to_int32, ceil_hundredth, calculate_min_finish, reaches, is_worker, run}

-- What one entry of the map, with its replica status if it has one, adds to the failures, to the
-- workers and to the workers that succeeded.
abbrev failed_in : Option ReplicaStatus → Bool
failed_in none = false
failed_in (some st) = ltb 0 st.failed

abbrev workers_in : String → ReplicaSpec → Option ReplicaStatus → ℕ
workers_in t spec none = 0
workers_in t spec (some st) = if is_worker t then spec.replicas else 0

abbrev done_in : String → Option ReplicaStatus → ℕ
done_in t none = 0
done_in t (some st) = if is_worker t then st.succeeded else 0

module _ (statuses : List (String × ReplicaStatus)) where
  unfoldable pub any_failed : Specs → Bool
  any_failed [] = false
  any_failed ((t, spec) ∷ rest) = failed_in (lookup t statuses) || any_failed rest

  unfoldable pub workers_of : Specs → ℕ
  workers_of [] = 0
  workers_of ((t, spec) ∷ rest) = workers_in t spec (lookup t statuses) + workers_of rest

  unfoldable pub done_of : Specs → ℕ
  done_of [] = 0
  done_of ((t, spec) ∷ rest) = done_in t (lookup t statuses) + done_of rest

-- What the conditions say at the end.
record Says (j : Job) (fails : Bool) (workers done : ℕ) (r : Roll) : Type 0 where
  by_success : is_succeeded r.status ≡ (
      not fails
      && reaches done
          (calculate_min_finish j.min_finish_worker_percentage j.min_finish_worker_num workers))
  by_failure : is_failed r.status ≡ (fails && not j.restart)

-- The job has not finished, and the replica statuses are these.
record IsOpen (statuses : List (String × ReplicaStatus)) (r : Roll) : Type 0 where
  not_finished : is_finished r.status ≡ false
  same : r.status.replica_statuses ≡ statuses

module _ (statuses : List (String × ReplicaStatus)) (j : Job) where
  counted : (a b : ℕ) → b ≡ a + 0 → a ≡ b
  counted a b e = omega arith

  -- The rest of the map, from any counts.
  abbrev Rest : Specs → Bool → ℕ → ℕ → Type 0
  Rest rest f w d =
      (w₀ d₀ w₁ d₁ : ℕ) (r : Roll)
      → w₁ ≡ w₀ + w
      → d₁ ≡ d₀ + d
      → IsOpen statuses r
      → Says j f w₁ d₁ (run j rest w₀ d₀ r)
