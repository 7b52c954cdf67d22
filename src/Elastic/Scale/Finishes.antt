-- ===== src/Elastic/Scale/Finishes.antt =====
-- What a scaling has done with the pods that are behind the generation of the job.
use kubedl.Prelude.{
  ℕ, String, Bool, true, false, not, ◌&&◌, Option, none, some, List, [], ◌∷◌, ◌≡◌, ◌≢◌, refl, sym,
  ap, arith, ◌⊎◌, inl, inr, ltb, str_eq, str_eq_iff, length, Bool-cases,
}
use mathlib.Core.Path.{subst}
use mathlib.Core.List.{Memᴰ}
use kubedl.Prelude.Int.{ℤ, pos, ltb_ℤ}
use kubedl.Prelude.Atoi.{atoi}
use kubedl.Prelude.Format.{decimal}
use kubedl.Failover.{restart_pod}
use kubedl.Failover.InPlace.{Completes, restart_pod-Completes}
use kubedl.Elastic.Scale.{
  ElasticPod, ElasticService, ScaleJob, is_stale_pod, filter_stale_pods, of_type, is_size,
  restart_pod_in_kruise_protocol, restart_stale_pod, scale,
}
use kubedl.Elastic.Scale.Order.{Completed, AllRefreshed, scale_ordered, scale_ends}

-- The label for the generation is missing or names a generation before that of the job.
abbrev pub IsBehind : ℕ → ElasticPod → Type 0
IsBehind generation p =
    (p.generation ≡ "")
    ⊎ ((z : ℤ) × ((atoi p.generation ≡ some z) × (ltb_ℤ z (pos generation) ≡ true)))

-- The pod has the world size of the job, a restart in place at the generation of the job is reported
-- as complete, and its label has been patched.
pub record Brought (generation size : String) (p : ElasticPod) : Type 0 where
  pub sized : p.world_size ≡ some size
  pub restarted : Completes p.accepts generation p.request
  pub labelled : p.patches ≡ true

-- What has been done with a pod: an inactive one of a job whose workers start immediately is deleted;
-- any other has the label for the generation of the job already, or has been brought to it.
pub data IsRefreshed (j : ScaleJob) (size : ℕ) (p : ElasticPod) : Type 0 where
  deleted :
      j.immediately_start ≡ true
      → p.is_active ≡ false
      → p.accepts.deletes_pod ≡ true
      → IsRefreshed j size p
  up_to_date : p.generation ≡ decimal j.generation → IsRefreshed j size p
  brought : Brought (decimal j.generation) (decimal size) p → IsRefreshed j size p

is_size-eq : (o : Option String) (size : String) → is_size o size ≡ true → o ≡ some size
is_size-eq none size h = absurd (ground (arith, h))
is_size-eq (some s) size h = ap some ((str_eq_iff s size).0 h)

kruise_sized :
    (size generation : String) (p : ElasticPod)
    → (restart_pod_in_kruise_protocol size generation p).completed ≡ true
    → (is_size p.world_size size ≡ true)
      × ((restart_pod p.accepts generation p.request).completed ≡ true)
unfolding restart_pod_in_kruise_protocol
kruise_sized size generation p h = (ground arith, ground arith)

restart_stale_pod-IsRefreshed :
    (j : ScaleJob) (size : ℕ) (p : ElasticPod) → Completed j size p → IsRefreshed j size p
unfolding restart_stale_pod
restart_stale_pod-IsRefreshed j size p h =
    let generation = decimal j.generation in
    let restart = restart_pod_in_kruise_protocol (decimal size) generation p in
    elim (Bool-cases (j.immediately_start && not p.is_active)) [
      | inl e ↦ deleted (ground arith) (ground arith) (ground arith)
      | inr e ↦ elim (Bool-cases (str_eq p.generation generation)) [
        | inl f ↦ up_to_date ((str_eq_iff p.generation generation).0 f)
        | inr f ↦ elim (Bool-cases restart.completed) [
          | inl g ↦
              let k = kruise_sized (decimal size) generation p g in
              brought (record {
                sized = is_size-eq p.world_size (decimal size) k.0;
                restarted = (restart_pod-Completes p.accepts generation p.request).0 k.1;
                labelled = ground arith;
              })
          | inr g ↦ absurd (ground arith)
        ]
      ]
    ]

is_stale_pod-IsBehind :
    (generation : ℕ) (p : ElasticPod) → IsBehind generation p → is_stale_pod generation p ≡ true
unfolding is_stale_pod
is_stale_pod-IsBehind generation p (inl e) = rw (e) refl
is_stale_pod-IsBehind generation p (inr (z, (e, h))) = ground (arith, e, h)

other_type : (s t : String) → s ≢ t → str_eq s t ≡ false
other_type s t h = elim (Bool-cases (str_eq s t)) [
  | inl e ↦ absurd (h ((str_eq_iff s t).0 e))
  | inr e ↦ e
]

behind_listed :
    (generation : ℕ) (p : ElasticPod) (ps : List ElasticPod)
    → Memᴰ p ps
    → is_stale_pod generation p ≡ true
    → str_eq p.replica_type "aimaster" ≡ false
    → Memᴰ p (filter_stale_pods generation ps)
unfolding filter_stale_pods
behind_listed generation p [] m s t = elim m [ ]
behind_listed generation p (q ∷ qs) (Memᴰ.head e) s t =
    let stale = subst (λ (x : ElasticPod). is_stale_pod generation x ≡ true) e s in
    let other = subst (λ (x : ElasticPod). str_eq x.replica_type "aimaster" ≡ false) e t in
    rw (stale, other) (Memᴰ.head e)
behind_listed generation p (q ∷ qs) (Memᴰ.tail m) s t =
    let rest = behind_listed generation p qs m s t in
    elim (Bool-cases (is_stale_pod generation q && not (str_eq q.replica_type "aimaster"))) [
      | inl e ↦ rw (e) (Memᴰ.tail rest)
      | inr e ↦ rw (e) rest
    ]

of_type_listed :
    (t : String) (p : ElasticPod) (ps : List ElasticPod)
    → Memᴰ p ps
    → str_eq p.replica_type t ≡ true
    → Memᴰ p (of_type t ps)
unfolding of_type
of_type_listed t p [] m h = elim m [ ]
of_type_listed t p (q ∷ qs) (Memᴰ.head e) h =
    rw (subst (λ (x : ElasticPod). str_eq x.replica_type t ≡ true) e h) (Memᴰ.head e)
of_type_listed t p (q ∷ qs) (Memᴰ.tail m) h =
    let rest = of_type_listed t p qs m h in
    elim (Bool-cases (str_eq q.replica_type t)) [
      | inl e ↦ rw (e) (Memᴰ.tail rest)
      | inr e ↦ rw (e) rest
    ]

AllRefreshed-IsRefreshed :
    (j : ScaleJob) (size : ℕ) (p : ElasticPod) (ps : List ElasticPod)
    → AllRefreshed j size ps
    → Memᴰ p ps
    → IsRefreshed j size p
AllRefreshed-IsRefreshed j size p [] all m = elim m [ ]
AllRefreshed-IsRefreshed j size p (q ∷ qs) all (Memᴰ.head e) =
    subst (λ x. IsRefreshed j size x) (sym e) (restart_stale_pod-IsRefreshed j size q all.0)
AllRefreshed-IsRefreshed j size p (q ∷ qs) all (Memᴰ.tail m) =
    AllRefreshed-IsRefreshed j size p qs all.1 m

-- The order of a scaling: where a stale worker is touched, every active master that is behind the
-- generation of the job has been dealt with before. It was deleted, being inactive; or its label is
-- the generation of the job; or it had the new world size, its restart in place at this generation
-- was done (or failed, and the pod was deleted instead), and the patch of its label went through.
pub scale-IsRefreshed :
    (services : List ElasticService) (patches : Bool) (j : ScaleJob) (size : ℕ)
    (active : List ElasticPod) (p : ElasticPod)
    → ltb 0 (length (scale services patches j size active).touched) ≡ true
    → Memᴰ p active
    → IsBehind j.generation p
    → p.replica_type ≡ "master"
    → IsRefreshed j size p
scale-IsRefreshed services patches j size active p h m b t =
    let stale = filter_stale_pods j.generation active in
    let listed =
      behind_listed j.generation p active m (is_stale_pod-IsBehind j.generation p b)
        (ap (λ s. str_eq s "aimaster") t) in
    AllRefreshed-IsRefreshed j size p (of_type "master" stale)
      (scale_ordered services patches j size active h)
      (of_type_listed "master" p stale listed ((str_eq_iff p.replica_type "master").1 t))

-- A scaling that counts as finished has left no active pod behind, of whatever type but AIMaster: each
-- one whose label is missing or names an earlier generation was deleted, being inactive; or its label
-- is the generation of the job; or it had the new world size, its restart in place at this
-- generation was done (or failed, and the pod was deleted instead), and the patch of its label went
-- through.
pub scale_finishes :
    (services : List ElasticService) (patches : Bool) (j : ScaleJob) (size : ℕ)
    (active : List ElasticPod) (p : ElasticPod)
    → (scale services patches j size active).is_finished ≡ true
    → Memᴰ p active
    → IsBehind j.generation p
    → p.replica_type ≢ "aimaster"
    → IsRefreshed j size p
scale_finishes services patches j size active p h m b t =
    AllRefreshed-IsRefreshed j size p (filter_stale_pods j.generation active)
      (scale_ends services patches j size active h)
      (behind_listed j.generation p active m (is_stale_pod-IsBehind j.generation p b)
        (other_type p.replica_type "aimaster" t))
