-- ===== src/Pods/Tally.antt =====
-- What reconciling the pods of a type makes of the status of the job.
use kubedl.Prelude.{
  ℕ, suc, ◌+◌, String, Bool, true, false, not, ◌&&◌, ◌||◌, some, List, [], ◌∷◌, ◌++◌, ◌≡◌, refl,
  sym, ap, ◌∙◌, arith, leb, str_eq, str_eq_refl, if◌then◌else◌, if_keeps,
}
use mathlib.Core.Path.{subst}
use mathlib.Core.List.{append_assoc, append-nil}
use kubedl.Prelude.Map.{lookup, lookup-insert}
use kubedl.Prelude.Text.{to_lower}
use kubedl.Api.{JobStatus, ReplicaStatus, PodPhase, phase_eq}
use kubedl.Kube.{Pod}
use kubedl.Pods.{
  Slices, all_init_containers_passed, count_pod, or_zero, zero_status, initialize_replica_statuses,
  update_job_replica_statuses, PodCall, Round, Role, Ending, finished_round, refused_round,
  Creation, reconcile_one_pod, reconcile_slices, monitor, end_round, begin, reconcile_pods,
  get_pod_slices, filter_pods_for_replica_type,
}

-- The pods that are counted: those that are alone in the slice of an index below the replicas.
unfoldable pub counted : ℕ → ℕ → Slices → List Pod
counted replicas index [] = []
counted replicas index ([] ∷ xs) = counted replicas (index + 1) xs
counted replicas index ((p ∷ []) ∷ xs) =
    let rest = counted replicas (index + 1) xs in if leb replicas index then rest else p ∷ rest
counted replicas index ((p ∷ q ∷ ps) ∷ xs) = counted replicas (index + 1) xs

unfoldable pub number : (Pod → Bool) → List Pod → ℕ
number f [] = 0
number f (p ∷ ps) = let rest = number f ps in if f p then suc rest else rest

-- Running, or pending on a node with its init containers started.
abbrev pub counts_active : Pod → Bool
counts_active p =
    phase_eq p.phase PodPhase.running
    || phase_eq p.phase PodPhase.pending
      && (not (str_eq p.node_name "") && all_init_containers_passed p.init_container_statuses)

abbrev pub has_succeeded : Pod → Bool
has_succeeded p = phase_eq p.phase PodPhase.succeeded

abbrev pub has_failed : Pod → Bool
has_failed p = phase_eq p.phase PodPhase.failed

pub record IsTally (ps : List Pod) (st : ReplicaStatus) : Type 0 where
  pub active : st.active ≡ number counts_active ps
  pub succeeded : st.succeeded ≡ number has_succeeded ps
  pub failed : st.failed ≡ number has_failed ps

number_snoc :
    (f : Pod → Bool) (ps : List Pod) (p : Pod)
    → number f (ps ++ p ∷ []) ≡ number f ps + (if f p then 1 else 0)
unfolding number
number_snoc f [] p = ground arith
number_snoc f (q ∷ ps) p = ground (arith, number_snoc f ps p)

count_pod-IsTally :
    (ps : List Pod) (p : Pod) (st : ReplicaStatus)
    → IsTally ps st
    → IsTally (ps ++ p ∷ []) (count_pod p st)
unfolding count_pod phase_eq
count_pod-IsTally ps p st v = record {
  active = ground (arith, number_snoc counts_active ps p, v.active);
  succeeded = ground (arith, number_snoc has_succeeded ps p, v.succeeded);
  failed = ground (arith, number_snoc has_failed ps p, v.failed);
}

-- A round has counted the pods `ps` for the type, and touched nothing else of the status `s`.
pub record Counts (rtype : String) (s : JobStatus) (ps : List Pod) (r : Round) : Type 0 where
  pub st : ReplicaStatus
  pub found : lookup rtype r.status.replica_statuses ≡ some st
  pub tally : IsTally ps st
  pub others :
      (t : String)
      → str_eq rtype t ≡ false
      → lookup t r.status.replica_statuses ≡ lookup t s.replica_statuses
  pub conditions : r.status.conditions ≡ s.conditions

-- A property of the round, where it ends normally.
pub data OnFinish {ℓ} (P : Round → Type ℓ) : Ending → Type ℓ where
  at_finish : {r : Round} → P r → OnFinish P (finished_round r)
  at_refusal : {r : Round} → OnFinish P (refused_round r)

pub OnFinish-creation {ℓ} :
    (P : Round → Type ℓ) (b c : Bool) (x y : Ending) (r : Round)
    → OnFinish P x
    → OnFinish P y
    → OnFinish P (elim b [ true ↦ x | false ↦ elim c [ true ↦ y | false ↦ refused_round r ] ])
OnFinish-creation P true c x y r p q = p
OnFinish-creation P false true x y r p q = q
OnFinish-creation P false false x y r p q = at_refusal

module _ (role : Role) (s : JobStatus) where
  abbrev Holds : List Pod → Round → Type 0
  Holds ps r = Counts role.rtype s ps r

  update-Counts :
      (ps : List Pod) (p : Pod) (r r' : Round)
      → r'.status ≡ update_job_replica_statuses role.rtype p r.status
      → Holds ps r
      → Holds (ps ++ p ∷ []) r'
  unfolding update_job_replica_statuses
  update-Counts ps p r r' e v = record {
    st = count_pod p v.st;
    found =
        ap (λ (x : JobStatus). lookup role.rtype x.replica_statuses) e
        ∙ ground (
          arith,
          lookup-insert role.rtype role.rtype
              (count_pod p (or_zero (lookup role.rtype r.status.replica_statuses)))
              r.status.replica_statuses,
          str_eq_refl role.rtype,
          v.found,
        );
    tally = count_pod-IsTally ps p v.st v.tally;
    others = λ t n.
        ap (λ (x : JobStatus). lookup t x.replica_statuses) e
        ∙ (ground (
          arith,
          lookup-insert role.rtype t
              (count_pod p (or_zero (lookup role.rtype r.status.replica_statuses)))
              r.status.replica_statuses,
          n,
        )
            ∙ v.others t n);
    conditions = ap (λ (x : JobStatus). x.conditions) e ∙ v.conditions;
  }

  same-Counts : (ps : List Pod) (r r' : Round) → r'.status ≡ r.status → Holds ps r → Holds ps r'
  same-Counts ps r r' e v = record {
    st = v.st;
    found = rw e v.found;
    tally = v.tally;
    others = λ t n. rw e (v.others t n);
    conditions = rw e v.conditions;
  }

  step-Counts :
      (index : ℕ) (p : Pod) (ps : List Pod) (r : Round)
      → Holds ps r
      → Holds
          (if leb role.spec.replicas index then ps else ps ++ p ∷ [])
          (reconcile_one_pod role index p r)
  unfolding reconcile_one_pod
  step-Counts index p ps r v =
      both (leb role.spec.replicas index) _ _ (same-Counts ps r _ refl v)
        (update-Counts ps p r _ refl v)
    where
      both :
          (b : Bool) (x y : Round)
          → Holds ps x
          → Holds (ps ++ p ∷ []) y
          → Holds (if b then ps else ps ++ p ∷ []) (if b then x else y)
      both true x y h k = h
      both false x y h k = k

  regroup :
      (b : Bool) (ps rest : List Pod) (p : Pod)
      → (if b then ps else ps ++ p ∷ []) ++ rest ≡ ps ++ (if b then rest else p ∷ rest)
  regroup true ps rest p = refl
  regroup false ps rest p = append_assoc ps (p ∷ []) rest

  slices-Counts :
      (answers : ℕ → Creation) (index : ℕ) (xs : Slices) (ps : List Pod) (r : Round)
      → Holds ps r
      → OnFinish
          (Holds (ps ++ counted role.spec.replicas index xs))
          (reconcile_slices answers role index xs r)
  unfolding reconcile_slices counted
  slices-Counts answers index [] ps r v =
      at_finish (subst (λ qs. Holds qs r) (sym (append-nil ps)) v)
  slices-Counts answers index ([] ∷ xs) ps r v =
      OnFinish-creation _ _ _ _ _ _ (slices-Counts answers (index + 1) xs ps r v)
        (slices-Counts answers (index + 1) xs ps _ (same-Counts ps r _ refl v))
  slices-Counts answers index ((p ∷ []) ∷ xs) ps r v =
      subst
        (λ qs.
          OnFinish (Holds qs)
            (reconcile_slices answers role (index + 1) xs (reconcile_one_pod role index p r)))
        (regroup (leb role.spec.replicas index) ps (counted role.spec.replicas (index + 1) xs) p)
        (slices-Counts answers (index + 1) xs _ _ (step-Counts index p ps r v))
  slices-Counts answers index ((p ∷ q ∷ qs) ∷ xs) ps r v =
      slices-Counts answers (index + 1) xs ps r v

  begin-Counts : (restart : Bool) → Holds [] (begin role.rtype s restart)
  unfolding initialize_replica_statuses number
  begin-Counts restart = record {
    st = zero_status;
    found = ground (
      arith,
      lookup-insert role.rtype role.rtype zero_status s.replica_statuses,
      str_eq_refl role.rtype,
    );
    tally = record { active = refl; succeeded = refl; failed = refl };
    others = λ t n. ground (arith, lookup-insert role.rtype t zero_status s.replica_statuses, n);
    conditions = refl;
  }

  end-Counts :
      (monitored : Bool) (reaction : List PodCall) (ps : List Pod) (e : Ending)
      → OnFinish (Holds ps) e
      → OnFinish (Holds ps) (end_round monitored role.rtype reaction e)
  unfolding end_round monitor
  end-Counts monitored reaction ps (finished_round r) (at_finish v) =
      at_finish
        (if_keeps (Holds ps) _ (same-Counts ps _ _ refl (watched monitored)) (watched monitored))
    where
      watched : (b : Bool) → Holds ps (monitor b role.rtype reaction r)
      watched b = if_keeps (Holds ps) b (same-Counts ps r _ refl v) v
  end-Counts monitored reaction ps (refused_round r) v = at_refusal

-- Reconciling the pods of a type, where it ends normally, leaves in the status of that type the
-- numbers of active, succeeded and failed pods among those that are alone in the slice of an index
-- below the replicas; the statuses of the other types and the conditions stay as they are.
pub reconcile_pods-Counts :
    (answers : ℕ → Creation) (monitored : Bool) (reaction : List PodCall) (role : Role)
    (ps : List Pod) (s : JobStatus) (restart : Bool)
    → OnFinish
        (Counts role.rtype s (
          counted role.spec.replicas 0 (
            get_pod_slices
              (filter_pods_for_replica_type ps (to_lower role.rtype))
              role.spec.replicas)))
        (reconcile_pods answers monitored reaction role ps s restart)
unfolding reconcile_pods
reconcile_pods-Counts answers monitored reaction role ps s restart =
    end-Counts role s monitored reaction _ _
      (slices-Counts role s answers 0 _ [] _ (begin-Counts role s restart))
