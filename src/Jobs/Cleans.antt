-- ===== src/Jobs/Cleans.antt =====
-- What is deleted when a job has ended.
use kubedl.Prelude.{false, List, ◌≡◌, ◌⊎◌}
use mathlib.Core.List.{Memᴰ}
use kubedl.Api.{CleanPodPolicy, undefined, all_pods, running_pods, PodPhase}
use kubedl.Kube.{Pod}
use kubedl.Jobs.{JobCall, delete_pod, delete_service, Deletions}

-- Which pods a policy deletes: all of them, the running ones, or none.
pub data Wanted : CleanPodPolicy → Pod → Type 0 where
  by_default : (p : Pod) → Wanted undefined p
  every : (p : Pod) → Wanted all_pods p
  if_running : (p : Pod) → p.phase ≡ PodPhase.running → Wanted running_pods p

-- The deletions went through, and are those of the pods that the policy wants deleted, each with
-- the service of its name.
pub record DeletesWanted (policy : CleanPodPolicy) (ps : List Pod) (d : Deletions) : Type 0 where
  pub accepted : d.error ≡ false
  pub complete :
      (p : Pod)
      → Memᴰ p ps
      → Wanted policy p
      → Memᴰ (delete_pod p.name) d.calls × Memᴰ (delete_service p.name) d.calls
  pub only :
      (c : JobCall)
      → Memᴰ c d.calls
      → (p : Pod) × (Memᴰ p ps
          × (Wanted policy p × ((c ≡ delete_pod p.name) ⊎ (c ≡ delete_service p.name))))
