-- ===== src/Gang.antt =====
-- pkg/gang_schedule: the gangs of a job and how pods are bound to them, by the coscheduler, volcano
-- and kube-batch; and GetTotalExcludedReplicas of pkg/util/k8sutil/k8sutil.go. The minimal resources
-- of a gang are left out.
pub mod Members
mod Tests
use kubedl.Prelude.{
  ℕ, ◌+◌, ◌-◌, String, Bool, true, false, not, ◌&&◌, Option, none, some, List, [], ◌∷◌, ◌++◌, ltb,
  str_eq, if◌then◌else◌,
}
use kubedl.Prelude.Map.{lookup, insert}
use kubedl.Prelude.Text.{to_lower}
use kubedl.Prelude.Format.{◌<>◌, decimal}
use kubedl.Api.{ReplicaSpec, replica_type_ai_master}
use kubedl.Jobs.{get_total_replicas}

abbrev pub Specs : Type 0
Specs = List (String × ReplicaSpec)

-- The owner of a gang is its job.
pub record PodGroup : Type 0 where
  pub name : String
  pub job_name : String
  pub role : Option String
  pub min_member : ℕ
  pub queue : String
  pub priority_class_name : String

unfoldable pub has_name : List String → String → Bool
has_name [] n = false
has_name (m ∷ ms) n = let rest = has_name ms n in if str_eq m n then true else rest

-- GetTotalExcludedReplicas.
unfoldable pub get_total_excluded_replicas : List String → Specs → ℕ
get_total_excluded_replicas excludes [] = 0
get_total_excluded_replicas excludes ((t, r) ∷ m) =
    (if has_name excludes t then 0 else r.replicas) + get_total_excluded_replicas excludes m

abbrev pub replicas_of : Option ReplicaSpec → ℕ
replicas_of none = 0
replicas_of (some r) = r.replicas

abbrev pub or_positive : Option ℕ → ℕ → ℕ
or_positive none n = n
or_positive (some m) n = if ltb 0 m then m else n

-- The members without the replicas of the AIMaster, if it has any.
abbrev pub without : ℕ → ℕ → ℕ
without master total = if ltb 0 master then total - master else total

-- generateGangByJobUnit: `min_available` is that of the scheduling policy.
unfoldable pub generate_gang_by_job_unit : String → Specs → Option ℕ → List PodGroup
generate_gang_by_job_unit name specs min_available =
    record {
      name = name;
      job_name = name;
      role = none;
      min_member =
          or_positive min_available (
            without (replicas_of (lookup replica_type_ai_master specs)) (get_total_replicas specs));
      queue = "";
      priority_class_name = "";
    }
    ∷ []

-- generateGangByRoleUnit.
unfoldable pub generate_gang_by_role_unit : String → Specs → List PodGroup
generate_gang_by_role_unit name [] = []
generate_gang_by_role_unit name ((t, r) ∷ m) =
    let rest = generate_gang_by_role_unit name m in
    let group : PodGroup = record {
      name = name <> "-" <> to_lower t;
      job_name = name;
      role = some (to_lower t);
      min_member = r.replicas;
      queue = "";
      priority_class_name = "";
    } in
    if str_eq t replica_type_ai_master then rest else group ∷ rest

-- What the API server answers to the Get of a gang.
pub data Answer : Type 0 where
  exists not_found get_failed : Answer

-- The names of the gangs that were created, and whether there was an error.
pub record Created : Type 0 where
  pub names : List String
  pub error : Bool

abbrev pub on_answer : (PodGroup → Bool) → PodGroup → List String → Answer → Created
on_answer creates g names exists = record { names = names; error = false }
on_answer creates g names get_failed = record { names = names; error = true }
on_answer creates g names not_found =
    if creates g
    then record { names = names ++ g.name ∷ []; error = false }
    else record { names = names; error = true }

-- The loop of CreateGang, which ends at the first error.
unfoldable pub create_gangs :
    (PodGroup → Answer) → (PodGroup → Bool) → List PodGroup → List String → Created
create_gangs get creates [] names = record { names = names; error = false }
create_gangs get creates (g ∷ gs) names =
    let r = on_answer creates g names (get g) in
    let rest = create_gangs get creates gs r.names in if r.error then r else rest

-- By role with DAG scheduling, and else by job.
abbrev pub generate : Bool → String → Specs → Option ℕ → List PodGroup
generate dag name specs min_available =
    if dag
    then generate_gang_by_role_unit name specs
    else generate_gang_by_job_unit name specs min_available

-- CreateGang of the coscheduler.
unfoldable pub create_gang :
    Bool → (PodGroup → Answer) → (PodGroup → Bool) → String → Specs → Option ℕ → Created
create_gang dag get creates name specs min_available =
    create_gangs get creates (generate dag name specs min_available) []

unfoldable pub in_queue : String → String → List PodGroup → List PodGroup
in_queue queue priority [] = []
in_queue queue priority (g ∷ gs) =
    record g { queue = queue; priority_class_name = priority } ∷ in_queue queue priority gs

-- CreateGang of volcano, with the queue and the priority class of the policy, "" without one.
unfoldable pub create_volcano_gang :
    Bool
    → (PodGroup → Answer)
    → (PodGroup → Bool)
    → String
    → Specs
    → Option ℕ
    → String
    → String
    → Created
create_volcano_gang dag get creates name specs min_available queue priority =
    create_gangs get creates (in_queue queue priority (generate dag name specs min_available)) []

-- The template of a pod; `owners` are the gangs that own it, whose names stand for their uids.
pub record Template : Type 0 where
  pub scheduler_name : String
  pub owners : List String
  pub labels : List (String × String)
  pub annotations : List (String × String)

abbrev pub is_role : Option String → String → Bool
is_role none rtype = false
is_role (some r) rtype = str_eq r rtype

-- The first gang that the selector matches: of the job, and with DAG scheduling of the role.
unfoldable pub matching : Bool → String → String → List PodGroup → Option PodGroup
matching dag name rtype [] = none
matching dag name rtype (g ∷ gs) =
    let rest = matching dag name rtype gs in
    if str_eq g.job_name name && (if dag then is_role g.role rtype else true) then some g else rest

abbrev pub bound : Template → Option PodGroup → Template
bound t none = t
bound t (some g) = record t {
  owners = if has_name t.owners g.name then t.owners else t.owners ++ g.name ∷ [];
  labels = insert "pod-group.scheduling.sigs.k8s.io/min-available" (decimal g.min_member) (
      insert "pod-group.scheduling.sigs.k8s.io/name" g.name
        (insert "pod-group.scheduling.sigs.k8s.io" g.name t.labels));
}

abbrev pub bound_any : Template → List PodGroup → Option PodGroup → Option Template
bound_any t [] g = none
bound_any t (x ∷ xs) g = some (bound t g)

-- BindPodToGang of the coscheduler, on a list of gangs: none is an error.
unfoldable pub bind_pod_to_gang :
    Bool → String → List PodGroup → String → Template → Option Template
bind_pod_to_gang dag name gs rtype t =
    if str_eq rtype (to_lower replica_type_ai_master)
    then some (record t { scheduler_name = "default-scheduler" })
    else bound_any t gs (matching dag name rtype gs)

abbrev pub group_name : Bool → String → String → Option PodGroup → String
group_name dag name rtype (some g) = g.name
group_name dag name rtype none = if dag then name <> "-" <> rtype else name

abbrev pub owned : Template → Option PodGroup → Template
owned t none = t
owned t (some g) = record t {
  owners = if has_name t.owners g.name then t.owners else t.owners ++ g.name ∷ [];
}

abbrev pub annotated : Template → String → Template
annotated t group = record t {
  annotations = insert "scheduling.k8s.io/group-name" group t.annotations;
}

abbrev pub volcano_any :
    Bool → String → String → Template → List PodGroup → Option PodGroup → Option Template
volcano_any dag name rtype t [] g = none
volcano_any dag name rtype t (x ∷ xs) g = some (annotated (owned t g) (group_name dag name rtype g))

-- BindPodToGang of volcano.
unfoldable pub bind_pod_to_volcano_gang :
    Bool → String → List PodGroup → String → Template → Option Template
bind_pod_to_volcano_gang dag name gs rtype t =
    if str_eq rtype (to_lower replica_type_ai_master)
    then some (record t { scheduler_name = "default-scheduler" })
    else volcano_any dag name rtype t gs (matching dag name rtype gs)

-- DeleteGang of the coscheduler and of volcano, on the gangs that are listed: the names of those that
-- were deleted, up to the first error.
unfoldable pub delete_gangs : (PodGroup → Bool) → List PodGroup → List String → Created
delete_gangs deletes [] names = record { names = names; error = false }
delete_gangs deletes (g ∷ gs) names =
    let rest = delete_gangs deletes gs (names ++ g.name ∷ []) in
    if deletes g then rest else record { names = names; error = true }
