-- ===== src/Gang/Members.antt =====
-- The members of the gangs of a job.
use kubedl.Prelude.{
  ℕ, ◌+◌, String, true, false, none, List, [], ◌∷◌, ◌≡◌, refl, sym, ◌∙◌, arith, str_eq, str_eq_iff,
  if◌then◌else◌, Bool-cases, inl, inr,
}
use mathlib.Core.Path.{subst}
use kubedl.Prelude.Map.{lookup, has_key}
use kubedl.Api.{replica_type_ai_master}
use kubedl.Jobs.{get_total_replicas}
use kubedl.Gang.{
  Specs, PodGroup, has_name, get_total_excluded_replicas, replicas_of, generate_gang_by_job_unit,
  generate_gang_by_role_unit,
}

abbrev pub members : List PodGroup → ℕ
members [] = 0
members (g ∷ gs) = g.min_member + members gs

-- The keys of a map are distinct.
abbrev pub AreDistinct : Specs → Type 0
AreDistinct [] = Unit {0}
AreDistinct ((t, r) ∷ m) = (has_key t m ≡ false) × AreDistinct m

abbrev excluded : Specs → ℕ
excluded = get_total_excluded_replicas (replica_type_ai_master ∷ [])

swap : (a b : String) → str_eq a b ≡ str_eq b a
swap a b = elim (Bool-cases (str_eq a b)) [
  | inl e ↦ e ∙ sym ((str_eq_iff b a).1 (sym ((str_eq_iff a b).0 e)))
  | inr e ↦ elim (Bool-cases (str_eq b a)) [
    | inl f ↦
        absurd (let g : str_eq a b ≡ true = (str_eq_iff a b).1 (sym ((str_eq_iff b a).0 f)) in cc)
    | inr f ↦ e ∙ sym f
  ]
]

role_members :
    (name : String) (m : Specs) → members (generate_gang_by_role_unit name m) ≡ excluded m
unfolding generate_gang_by_role_unit get_total_excluded_replicas has_name
role_members name [] = refl
role_members name ((t, r) ∷ m) = elim (Bool-cases (str_eq t replica_type_ai_master)) [
  | inl e ↦ rw (swap replica_type_ai_master t, e) (rw (role_members name m) (omega arith))
  | inr e ↦ rw (swap replica_type_ai_master t, e) (rw (role_members name m) refl)
]

missing : (m : Specs) → has_key replica_type_ai_master m ≡ false → excluded m ≡ get_total_replicas m
unfolding get_total_excluded_replicas get_total_replicas has_name has_key lookup
missing [] h = refl
missing ((t, r) ∷ m) h = elim (Bool-cases (str_eq t replica_type_ai_master)) [
  | inl e ↦ absurd (let k : true ≡ false = rw (e) at h in cc)
  | inr e ↦ rw (swap replica_type_ai_master t, e) (rw (missing m (rw (e) at h)) refl)
]

total_members :
    (m : Specs)
    → AreDistinct m
    → excluded m + replicas_of (lookup replica_type_ai_master m) ≡ get_total_replicas m
unfolding get_total_excluded_replicas get_total_replicas has_name lookup
total_members [] d = refl
total_members ((t, r) ∷ m) d = elim (Bool-cases (str_eq t replica_type_ai_master)) [
  | inl e ↦
      let same = (str_eq_iff t replica_type_ai_master).0 e in
      rw (swap replica_type_ai_master t, e)
        (rw (missing m (subst (λ x. has_key x m ≡ false) same d.0)) (omega arith))
  | inr e ↦ rw (swap replica_type_ai_master t, e) (omega (arith, total_members m d.1))
]

-- The replicas of all types but that of the AIMaster.
abbrev pub but_ai_master : Specs → ℕ
but_ai_master [] = 0
but_ai_master ((t, r) ∷ m) =
    (if str_eq t replica_type_ai_master then 0 else r.replicas) + but_ai_master m

excluded_are : (m : Specs) → excluded m ≡ but_ai_master m
unfolding get_total_excluded_replicas has_name
excluded_are [] = refl
excluded_are ((t, r) ∷ m) = elim (Bool-cases (str_eq t replica_type_ai_master)) [
  | inl e ↦ rw (swap replica_type_ai_master t, e, excluded_are m) refl
  | inr e ↦ rw (swap replica_type_ai_master t, e, excluded_are m) refl
]

-- Whether a job gets one gang or, with DAG scheduling, a gang for every role, as many members are
-- waited for altogether as the replicas of all types but that of the AIMaster; for the one gang, if
-- its scheduling policy does not name another number. The replica types are distinct, as the keys of a
-- map are.
pub generate_gang-members :
    (name : String) (m : Specs)
    → AreDistinct m
    → (members (generate_gang_by_role_unit name m) ≡ but_ai_master m)
      × (members (generate_gang_by_job_unit name m none) ≡ but_ai_master m)
unfolding generate_gang_by_job_unit
generate_gang-members name m d =
    (role_members name m ∙ excluded_are m, ground (arith, total_members m d, excluded_are m))
