-- ===== src/Elastic/Grows.antt =====
-- A reconciliation of the checkpoint does not lower the generation.
use kubedl.Prelude.{
  ℕ, ◌≤◌, String, Bool, true, false, Option, none, some, List, [], ◌∷◌, arith, ◌==◌, if_rule,
}
use kubedl.Elastic.{
  Progress, in_progress, succeeded, other, Version, Annotation, absent, garbled, stored, Job,
  Server, Outcome, trigger_job_checkpoint, cleanup_victim_pods, checkpoint_victims, on_cleanup,
  wind_up, on_status, on_versions,
}

-- The generation does not go down.
abbrev pub Grows : ℕ → Option Outcome → Type 0
Grows g none = Unit {0}
Grows g (some o) = g ≤ o.job.generation

module _ (s : Server) (j : Job) where
  victims-Grows : (vs : List String) → Grows j.generation (some (checkpoint_victims s j vs))
  unfolding checkpoint_victims trigger_job_checkpoint
  victims-Grows [] = omega arith
  victims-Grows (v ∷ vs) =
      if_rule (λ o. Grows j.generation (some o)) s.patches (λ _. omega arith) (λ _. omega arith)

  clean-Grows : (r : Version) (o : Option Bool) → Grows j.generation (on_cleanup s r j o)
  clean-Grows r none = tt
  clean-Grows r (some true) = omega arith
  clean-Grows r (some false) =
      if_rule (Grows j.generation) s.updates (λ _. omega arith) (λ _. omega arith)

  status-Grows :
      (vs : List String) (r : Version) (p : Progress) → Grows j.generation (on_status s r j vs p)
  unfolding wind_up
  status-Grows vs r succeeded = victims-Grows vs
  status-Grows vs r in_progress = clean-Grows r (cleanup_victim_pods s vs)
  status-Grows vs r other = omega arith

  pub versions-Grows :
      (vs : List String) (q c : Annotation) → Grows j.generation (on_versions s j vs q c)
  versions-Grows vs absent absent = victims-Grows vs
  versions-Grows vs absent garbled = omega arith
  versions-Grows vs absent (stored c) = victims-Grows vs
  versions-Grows vs garbled c = omega arith
  versions-Grows vs (stored r) absent = omega arith
  versions-Grows vs (stored r) garbled = omega arith
  versions-Grows vs (stored r) (stored c) =
      if_rule (Grows j.generation) (r.version == c.version) (λ _. status-Grows vs r r.status)
        (λ _. omega arith)
