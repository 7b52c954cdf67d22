-- ===== src/Conditions/Updates.antt =====
-- What one update of the conditions does, and what a sequence of them does.
use kubedl.Prelude.{
  ℕ, String, Bool, true, false, ◌&&◌, ◌||◌, List, [], ◌∷◌, ◌++◌, ◌≡◌, refl, inl, inr, arith,
  Bool-cases, Option, none, some, str_eq, str_eq_refl, str_eq_iff, length, ◌==◌,
}
use kubedl.Api.{
  JobConditionType, created, queuing, condition_true, JobCondition, JobStatus, type_eq, status_eq,
}
use kubedl.Conditions.{
  get_condition, new_condition, find_condition, is_enqueued, is_just_created, last_condition,
  get_last_condition, need_enqueue_to_coordinator, filter_out_condition, drops, unchanged,
  update_job_conditions, job_enqueued_reason,
}
use kubedl.Conditions.Counting.{count_type, count_type-filter_out_condition, type_eq_self}
use kubedl.Conditions.Invariant.{
  is_finished, IsWellFormed, entered, kept, kept_fields, update_cases,
  update_job_conditions-IsWellFormed,
}

-- One call of UpdateJobConditions, with the time at which it is made.
pub record Update : Type 0 where
  pub now : ℕ
  pub type : JobConditionType
  pub reason : String
  pub message : String

abbrev pub apply_all : JobStatus → List Update → JobStatus
apply_all s [] = s
apply_all s (u ∷ us) = apply_all (update_job_conditions u.now s u.type u.reason u.message) us

-- Every sequence of updates keeps the invariant of the conditions.
pub apply_all-IsWellFormed :
    (us : List Update) (s : JobStatus) → IsWellFormed s → IsWellFormed (apply_all s us)
apply_all-IsWellFormed [] s v = v
apply_all-IsWellFormed (u ∷ us) s v =
    apply_all-IsWellFormed us _
      (update_job_conditions-IsWellFormed u.now s u.type u.reason u.message v)

-- A finished job stays as it is, whatever conditions are entered later.
pub apply_all_finished :
    (us : List Update) (s : JobStatus) → is_finished s ≡ true → apply_all s us ≡ s
apply_all_finished [] s h = refl
apply_all_finished (u ∷ us) s h =
    rw (update_cases u.now s u.type u.reason u.message, h) (apply_all_finished us s h)

find_condition-none :
    (cs : List JobCondition) (t : JobConditionType)
    → count_type cs t ≡ 0
    → find_condition cs t ≡ none
unfolding find_condition
find_condition-none [] t h = refl
find_condition-none (c ∷ cs) t h = ground (arith, find_condition-none cs t)

find_condition-snoc :
    (cs : List JobCondition) (c : JobCondition) (t : JobConditionType)
    → find_condition cs t ≡ none
    → type_eq c.type t ≡ true
    → find_condition (cs ++ c ∷ []) t ≡ some c
unfolding find_condition
find_condition-snoc [] c t h k = ground arith
find_condition-snoc (d ∷ cs) c t h k = ground (arith, find_condition-snoc cs c t)

drops_same : (t : JobConditionType) → drops t t ≡ true
unfolding drops type_eq
drops_same t = ground arith

get_condition-entered :
    (now : ℕ) (s : JobStatus) (t : JobConditionType) (r m : String)
    → get_condition (entered now s t r m) t ≡ some (kept now s t r m)
unfolding get_condition
get_condition-entered now s t r m =
    find_condition-snoc (filter_out_condition s.conditions t) (kept now s t r m) t
      (find_condition-none _ t
        (ground (arith, count_type-filter_out_condition s.conditions t t, drops_same t)))
      (ground (arith, kept_fields now s t r m, type_eq_self t))

-- What the current condition of the type says after an update for the reason `r`.
pub record Records (s : JobStatus) (t : JobConditionType) (r : String) (c : JobCondition)
    : Type 0 where
  pub is_true : c.status ≡ condition_true
  pub for_reason : c.reason ≡ r
  pub same_transition :
      (d : JobCondition)
      → get_condition s t ≡ some d
      → d.status ≡ condition_true
      → c.last_transition_time ≡ d.last_transition_time

kept-Records :
    (now : ℕ) (s : JobStatus) (t : JobConditionType) (r m : String)
    → Records s t r (kept now s t r m)
unfolding status_eq
kept-Records now s t r m = record {
  is_true = (kept_fields now s t r m).1;
  for_reason = (kept_fields now s t r m).2;
  same_transition = λ d e k. ground arith;
}

unchanged-Records :
    (now : ℕ) (s : JobStatus) (t : JobConditionType) (r m : String) (d : JobCondition)
    → get_condition s t ≡ some d
    → unchanged (some d) (new_condition now t r m) ≡ true
    → Records s t r d
unfolding status_eq
unchanged-Records now s t r m d e h = record {
  is_true = ground arith;
  for_reason = ground (arith, str_eq_iff d.reason r);
  same_transition = λ d' e' k. ground arith;
}

current_of_unchanged :
    (o : Option JobCondition) (c : JobCondition)
    → unchanged o c ≡ true
    → (d : JobCondition) × (o ≡ some d)
current_of_unchanged none c h = cc
current_of_unchanged (some d) c h = (d, refl)

-- Entering a condition in a job that has not finished leaves a current condition of that type: it is
-- True, it has the given reason, and its transition time is that of the condition of this type that
-- was there, if that one was True.
pub get_condition-update :
    (now : ℕ) (s : JobStatus) (t : JobConditionType) (r m : String)
    → is_finished s ≡ false
    → (c : JobCondition) × (get_condition (update_job_conditions now s t r m) t ≡ some c)
      × Records s t r c
get_condition-update now s t r m h =
    elim (Bool-cases (unchanged (get_condition s t) (new_condition now t r m))) [
      | inl same ↦
          let (d, e) = current_of_unchanged (get_condition s t) (new_condition now t r m) same in
          (
            d,
            rw (update_cases now s t r m, h, same) e,
            unchanged-Records now s t r m d e (rw e at same),
          )
      | inr new ↦ (
        kept now s t r m,
        rw (update_cases now s t r m, h, new) (get_condition-entered now s t r m),
        kept-Records now s t r m,
      )
    ]

Records-unchanged :
    (now : ℕ) (s s' : JobStatus) (t : JobConditionType) (r m : String) (c : JobCondition)
    → get_condition s' t ≡ some c
    → Records s t r c
    → unchanged (get_condition s' t) (new_condition now t r m) ≡ true
unfolding status_eq
Records-unchanged now s s' t r m c e k =
    rw e (ground (arith, k.is_true, k.for_reason, str_eq_refl r))

or_true : (a b : Bool) → b ≡ true → (a || b) ≡ true
or_true a b h = ground arith

-- Entering a condition twice for the same reason is entering it once: the second call changes
-- neither the conditions nor their times, whatever its time and message.
pub update_job_conditions_idem :
    (now later : ℕ) (s : JobStatus) (t : JobConditionType) (r m m' : String)
    → update_job_conditions later (update_job_conditions now s t r m) t r m'
      ≡ update_job_conditions now s t r m
update_job_conditions_idem now later s t r m m' = elim (Bool-cases (is_finished s)) [
  | inl end ↦
      let e : update_job_conditions now s t r m ≡ s = rw (update_cases now s t r m, end) in
      rw e (rw (update_cases later s t r m', end))
  | inr open_job ↦
      let (c, e, k) = get_condition-update now s t r m open_job in
      let s' = update_job_conditions now s t r m in
      rw (update_cases later s' t r m')
        (rw (or_true (is_finished s') _ (Records-unchanged later s s' t r m' c e k)))
]

last_condition-snoc :
    (cs : List JobCondition) (c : JobCondition) → last_condition (cs ++ c ∷ []) ≡ some c
unfolding last_condition
last_condition-snoc [] c = refl
last_condition-snoc (d ∷ []) c = refl
last_condition-snoc (d ∷ e ∷ cs) c = last_condition-snoc (e ∷ cs) c

length-snoc : (cs : List JobCondition) (c : JobCondition) → (length (cs ++ c ∷ []) == 0) ≡ false
length-snoc [] c = refl
length-snoc (d ∷ cs) c = ground arith

-- After an update that changes something, a job still has to be handed to the coordinator exactly
-- when it was just created, or when it is queuing for the reason that it was enqueued.
pub need_enqueue-update :
    (now : ℕ) (s : JobStatus) (t : JobConditionType) (r m : String)
    → is_finished s ≡ false
    → unchanged (get_condition s t) (new_condition now t r m) ≡ false
    → need_enqueue_to_coordinator (update_job_conditions now s t r m)
      ≡ (type_eq t created || type_eq t queuing && str_eq r job_enqueued_reason)
unfolding need_enqueue_to_coordinator is_just_created is_enqueued get_last_condition
need_enqueue-update now s t r m h new =
    rw (update_cases now s t r m, h, new)
      (ground (
        arith,
        kept_fields now s t r m,
        last_condition-snoc (filter_out_condition s.conditions t) (kept now s t r m),
        length-snoc (filter_out_condition s.conditions t) (kept now s t r m),
      ))
