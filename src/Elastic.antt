-- ===== src/Elastic.antt =====
-- controllers/pytorch/elastic_scale.go: the checkpoints of an elastic PyTorchJob before its pods are
-- drained. The AIMaster, another program, answers a request by an annotation on the job.
pub mod Phase
pub mod Grows
pub mod Checkpoints
pub mod Scale
mod Tests
use kubedl.Prelude.{
  ℕ, ◌+◌, ◌%◌, String, Bool, true, false, Option, none, some, List, [], ◌∷◌, ◌==◌, ltb,
  if◌then◌else◌,
}
use kubedl.Kube.{Pod, is_victim_candidate_pod}

-- The status of a checkpoint: InProgress, Succeeded or another text.
pub data Progress : Type 0 where
  in_progress succeeded other : Progress

-- ckptVersion, without its texts. The version is the bit pattern of an int32.
pub record Version : Type 0 where
  pub version : ℕ
  pub status : Progress

-- An annotation with a version: not there, not to be parsed, or a version.
pub data Annotation : Type 0 where
  absent garbled : Annotation
  stored : Version → Annotation

-- The job in the API server: its generation, and its annotations for the requested and the
-- completed version and for the start of workers.
pub record Job : Type 0 where
  pub generation : ℕ
  pub requested : Annotation
  pub completed : Annotation
  pub ready_to_start : Bool

-- int32(g).
abbrev pub to_int32 : ℕ → ℕ
to_int32 g = g % 4294967296

-- Which calls the API server accepts.
pub record Server : Type 0 where
  pub deletes : String → Bool
  pub patches : Bool
  pub updates : Bool

pub record Outcome : Type 0 where
  pub is_completed : Bool
  pub has_error : Bool
  pub job : Job

-- triggerJobCheckpoint.
unfoldable pub trigger_job_checkpoint : Server → Job → Outcome
trigger_job_checkpoint s j =
    let request : Version = record { version = to_int32 j.generation; status = in_progress } in
    let requested : Job = record j { requested = stored request } in
    if s.patches
    then record { is_completed = false; has_error = false; job = requested }
    else record { is_completed = false; has_error = true; job = j }

unfoldable pub failures : (String → Bool) → List String → ℕ
failures deletes [] = 0
failures deletes (v ∷ vs) = (if deletes v then 0 else 1) + failures deletes vs

-- cleanupVictimPods: whether there was an error. The errors go into a channel for ten, and each
-- deletion ends when it has sent its error; so with more than ten the function waits for ever, and
-- has no result.
unfoldable pub cleanup_victim_pods : Server → List String → Option Bool
cleanup_victim_pods s vs =
    if ltb 10 (failures s.deletes vs) then none else some (ltb 0 (failures s.deletes vs))

-- increaseGenerationAndMarkAsSucceeded, in the API server: the update changes the specification,
-- so the generation goes up.
abbrev pub wound_up : Version → Job → Job
wound_up r j = record j {
  generation = j.generation + 1;
  requested = stored (record r { status = succeeded });
  ready_to_start = true;
}

-- The first branch: a new checkpoint when there are victims.
unfoldable pub checkpoint_victims : Server → Job → List String → Outcome
checkpoint_victims s j [] = record { is_completed = true; has_error = false; job = j }
checkpoint_victims s j (v ∷ vs) = trigger_job_checkpoint s j

-- The second branch, once the victims have been cleaned up. The error of the update is dropped.
abbrev pub on_cleanup : Server → Version → Job → Option Bool → Option Outcome
on_cleanup s r j none = none
on_cleanup s r j (some true) = some (record { is_completed = false; has_error = true; job = j })
on_cleanup s r j (some false) =
    if s.updates
    then some (record { is_completed = true; has_error = false; job = wound_up r j })
    else some (record { is_completed = false; has_error = false; job = j })

-- The second branch: a checkpoint has completed.
unfoldable pub wind_up : Server → Version → Job → List String → Option Outcome
wind_up s r j vs = on_cleanup s r j (cleanup_victim_pods s vs)

abbrev pub not_yet : Job → Option Outcome
not_yet j = some (record { is_completed = false; has_error = false; job = j })

abbrev pub on_status : Server → Version → Job → List String → Progress → Option Outcome
on_status s r j vs succeeded = some (checkpoint_victims s j vs)
on_status s r j vs in_progress = wind_up s r j vs
on_status s r j vs other = not_yet j

abbrev pub on_versions : Server → Job → List String → Annotation → Annotation → Option Outcome
on_versions s j vs garbled c = some (record { is_completed = false; has_error = true; job = j })
on_versions s j vs absent garbled =
    some (record { is_completed = false; has_error = true; job = j })
on_versions s j vs absent absent = some (checkpoint_victims s j vs)
on_versions s j vs absent (stored c) = some (checkpoint_victims s j vs)
on_versions s j vs (stored r) garbled =
    some (record { is_completed = false; has_error = true; job = j })
on_versions s j vs (stored r) absent = not_yet j
on_versions s j vs (stored r) (stored c) =
    if r.version == c.version then on_status s r j vs r.status else not_yet j

-- filterVictimPods: their names.
unfoldable pub filter_victim_pods : List Pod → List String
filter_victim_pods [] = []
filter_victim_pods (p ∷ ps) =
    let rest = filter_victim_pods ps in if is_victim_candidate_pod p then p.name ∷ rest else rest

-- CheckpointIfNecessary, on the names of the pods that are to be drained.
unfoldable pub checkpoint_if_necessary : Server → Job → List String → Option Outcome
checkpoint_if_necessary s j vs = on_versions s j vs j.requested j.completed
