-- ===== src/Rollup/Laws.antt =====
-- What the four changes of the conditions keep, and the rule for the loop over the specifications.
use kubedl.Prelude.{
  ℕ, String, true, false, Option, none, some, List, [], ◌∷◌, ◌≡◌, refl, ◌⊎◌, arith,
}
use kubedl.Prelude.Map.{lookup}
use kubedl.Api.{
  JobConditionType, condition_true, JobCondition, JobStatus, ReplicaSpec, ReplicaStatus, type_eq,
  status_eq,
}
use kubedl.Conditions.{
  any_true, has_condition, find_condition, get_condition, update_job_conditions,
}
use kubedl.Conditions.Invariant.{is_finished, update_cases, has_condition-entered}
use kubedl.Conditions.Updates.{get_condition-update}
use kubedl.Rollup.{Roll, Specs, Flow, next, returned, refused, panics, loop}
use mathlib.Core.List.{Memᴰ}

-- A condition that an update leaves True was True before, or is of the type that is entered.
pub has_condition-update :
    (now : ℕ) (s : JobStatus) (t : JobConditionType) (r m : String) (u : JobConditionType)
    → has_condition (update_job_conditions now s t r m) u ≡ true
    → (has_condition s u ≡ true) ⊎ (type_eq t u ≡ true)
has_condition-update now s t r m u h =
    ground (arith, update_cases now s t r m, has_condition-entered now s t r m u)

any_true_of_find :
    (cs : List JobCondition) (t : JobConditionType) (c : JobCondition)
    → find_condition cs t ≡ some c
    → c.status ≡ condition_true
    → any_true cs t ≡ true
unfolding find_condition any_true status_eq
any_true_of_find [] t c e h = cc
any_true_of_find (d ∷ cs) t c e h = ground (arith, any_true_of_find cs t c)

-- In a job that has not finished the entered condition is True afterwards.
pub has_condition-update_self :
    (now : ℕ) (s : JobStatus) (t : JobConditionType) (r m : String)
    → is_finished s ≡ false
    → has_condition (update_job_conditions now s t r m) t ≡ true
unfolding has_condition get_condition
has_condition-update_self now s t r m h =
    let (c, e, k) = get_condition-update now s t r m h in
    any_true_of_find (update_job_conditions now s t r m).conditions t c e k.is_true

pub update_finished :
    (now : ℕ) (s : JobStatus) (t : JobConditionType) (r m : String)
    → is_finished s ≡ true
    → update_job_conditions now s t r m ≡ s
update_finished now s t r m h = rw (update_cases now s t r m, h)

-- An update touches nothing but the conditions.
pub update_keeps :
    (now : ℕ) (s : JobStatus) (t : JobConditionType) (r m : String)
    → ((update_job_conditions now s t r m).replica_statuses ≡ s.replica_statuses)
      × ((update_job_conditions now s t r m).completion_time ≡ s.completion_time)
      × ((update_job_conditions now s t r m).start_time ≡ s.start_time)
update_keeps now s t r m = ground (arith, update_cases now s t r m)

-- The postcondition of a flow that does not panic.
pub data FlowAll {ℓ} (P : Roll → Type ℓ) : Flow → Type ℓ where
  at_next : {r : Roll} → P r → FlowAll P (next r)
  at_returned : {r : Roll} → P r → FlowAll P (returned r)
  at_refused : {r : Roll} → P r → FlowAll P (refused r)
  at_panics : FlowAll P panics

flow_next {ℓ} :
    (P : Roll → Type ℓ) (f : Flow) (body : String → ReplicaSpec → ReplicaStatus → Roll → Flow)
    (rest : Specs)
    → FlowAll P f
    → ((r : Roll) → P r → FlowAll P (loop body rest r))
    → FlowAll P (elim f [
      | next r' ↦ loop body rest r'
      | returned r' ↦ returned r'
      | refused r' ↦ refused r'
      | panics ↦ panics
    ])
flow_next P (next r) body rest (at_next p) k = k r p
flow_next P (returned r) body rest p k = p
flow_next P (refused r) body rest p k = p
flow_next P panics body rest p k = at_panics

flow_entry {ℓ} :
    (P : Roll → Type ℓ) (o : Option ReplicaStatus) (r : Roll) (rtype : String) (spec : ReplicaSpec)
    (body : String → ReplicaSpec → ReplicaStatus → Roll → Flow) (rest : Specs)
    → P r
    → ((st : ReplicaStatus) → o ≡ some st → FlowAll P (body rtype spec st r))
    → ((r' : Roll) → P r' → FlowAll P (loop body rest r'))
    → FlowAll P (elim o [
      | none ↦ loop body rest r
      | some st ↦ elim (body rtype spec st r) [
        | next r' ↦ loop body rest r'
        | returned r' ↦ returned r'
        | refused r' ↦ refused r'
        | panics ↦ panics
      ]
    ])
flow_entry P none r rtype spec body rest p step k = k r p
flow_entry P (some st) r rtype spec body rest p step k =
    flow_next P (body rtype spec st r) body rest (step st refl) k

-- What every body keeps, for the entries of the map that have a replica status, the loop keeps.
pub loop_rule {ℓ} :
    (P : Roll → Type ℓ) (body : String → ReplicaSpec → ReplicaStatus → Roll → Flow) (specs : Specs)
    → ((rtype : String) (spec : ReplicaSpec) (st : ReplicaStatus) (r : Roll)
        → Memᴰ (rtype, spec) specs
        → lookup rtype r.status.replica_statuses ≡ some st
        → P r
        → FlowAll P (body rtype spec st r))
    → (r : Roll) → P r
    → FlowAll P (loop body specs r)
unfolding loop
loop_rule P body [] step r p = at_next p
loop_rule P body ((rtype, spec) ∷ rest) step r p =
    flow_entry P (lookup rtype r.status.replica_statuses) r rtype spec body rest p
      (λ st e. step rtype spec st r (Memᴰ.head refl) e p)
      (loop_rule P body rest (λ t s st r' m. step t s st r' (Memᴰ.tail m)))

pub flow_map {ℓ κ} :
    (P : Roll → Type ℓ) (Q : Roll → Type κ)
    → ((r : Roll) → P r → Q r)
    → (f : Flow) → FlowAll P f
    → FlowAll Q f
flow_map P Q g (next r) (at_next p) = at_next (g r p)
flow_map P Q g (returned r) (at_returned p) = at_returned (g r p)
flow_map P Q g (refused r) (at_refused p) = at_refused (g r p)
flow_map P Q g panics p = at_panics
