-- ===== src/Elastic/Phase.antt =====
-- The consistency of the annotations, and that a reconciliation keeps it.
use kubedl.Prelude.{
  ℕ, ◌+◌, ◌≤◌, ◌<◌, String, Bool, true, false, not, ◌&&◌, Option, none, some, List, [], ◌∷◌, ◌≡◌,
  refl, arith, ◌==◌, if◌then◌else◌, if_rule,
}
use kubedl.Elastic.{
  Progress, in_progress, succeeded, other, Version, Annotation, absent, garbled, stored, Job,
  to_int32, Server, Outcome, trigger_job_checkpoint, cleanup_victim_pods, checkpoint_victims,
  on_cleanup, wind_up, on_status, on_versions, checkpoint_if_necessary,
}

-- A job, and whether the AIMaster has answered the latest request.
pub record World : Type 0 where
  pub job : Job
  pub answered : Bool

abbrev pub is_pending : Annotation → Bool
is_pending (stored r) = elim r.status [ in_progress ↦ true | _ ↦ false ]
is_pending _ = false

-- A new request leaves the AIMaster with no answer to it.
abbrev pub after : World → Outcome → World
after w o = record {
  job = o.job;
  answered =
      if is_pending o.job.requested && not (is_pending w.job.requested) then false else w.answered;
}

-- A reconciliation, an answer of the AIMaster to a pending request, or a change of the
-- specification by a user.
pub data Step (w : World) : World → Type 0 where
  reconcile :
      {o : Outcome} (s : Server) (victims : List String)
      → checkpoint_if_necessary s w.job victims ≡ some o
      → Step w (after w o)
  answer :
      (r : Version)
      → w.job.requested ≡ stored r
      → r.status ≡ in_progress
      → Step w (record { job = record w.job { completed = stored r }; answered = true })
  edit : Step w (record w { job = record w.job { generation = w.job.generation + 1 } })

pub data Reach (w : World) : World → Type 0 where
  here : Reach w w
  next : {u v : World} → Reach w u → Step u v → Reach w v

abbrev pub Below : Annotation → ℕ → Type 0
Below absent v = Unit {0}
Below garbled v = ⊥
Below (stored c) v = c.version < v

abbrev pub Same : Annotation → ℕ → Type 0
Same absent v = ⊥
Same garbled v = ⊥
Same (stored c) v = c.version ≡ v

-- A pending request that has no answer is newer than what has been completed, and one that has an
-- answer is what has been completed; a request counts as succeeded only with an answer, and the
-- generation of the job is then beyond it.
abbrev pub InPhase : ℕ → Bool → ℕ → Progress → Annotation → Type 0
InPhase g false v in_progress c = (v ≤ g) × Below c v
InPhase g true v in_progress c = (v ≤ g) × Same c v
InPhase g true v succeeded c = (v < g) × Same c v
InPhase g false v succeeded c = ⊥
InPhase g a v other c = ⊥

abbrev pub Phase : ℕ → Bool → Annotation → Annotation → Type 0
Phase g a absent absent = Unit {0}
Phase g a absent garbled = ⊥
Phase g a absent (stored c) = ⊥
Phase g a garbled c = ⊥
Phase g a (stored r) c = InPhase g a r.version r.status c

abbrev pub IsConsistent : World → Type 0
IsConsistent w = Phase w.job.generation w.answered w.job.requested w.job.completed

abbrev pub Keeps : World → Option Outcome → Type 0
Keeps w none = Unit {0}
Keeps w (some o) = IsConsistent (after w o)

abbrev pub job_of : ℕ → Annotation → Annotation → Bool → Job
job_of g q c ready = record { generation = g; requested = q; completed = c; ready_to_start = ready }

abbrev pub world_of : ℕ → Bool → Annotation → Annotation → Bool → World
world_of g a q c ready = record { job = job_of g q c ready; answered = a }

abbrev pub request : ℕ → Progress → Version
request v p = record { version = v; status = p }

module _ (s : Server) (g : ℕ) (small : g < 4294967296) (ready : Bool) where
  same_version : to_int32 g ≡ g
  same_version = omega arith

  trigger-Keeps :
      (a : Bool) (q c : Annotation)
      → is_pending q ≡ false
      → Below c g
      → Phase g a q c
      → Keeps (world_of g a q c ready) (some (trigger_job_checkpoint s (job_of g q c ready)))
  unfolding trigger_job_checkpoint
  trigger-Keeps a q c h b p =
      if_rule (λ o. Keeps (world_of g a q c ready) (some o)) s.patches
        (λ _. rw (h, same_version) (omega arith, b)) (λ _. rw (h) p)

  victims-Keeps :
      (vs : List String) (a : Bool) (q c : Annotation)
      → is_pending q ≡ false
      → Below c g
      → Phase g a q c
      → Keeps (world_of g a q c ready) (some (checkpoint_victims s (job_of g q c ready) vs))
  unfolding checkpoint_victims
  victims-Keeps [] a q c h b p = rw (h) p
  victims-Keeps (v ∷ vs) a q c h b p = trigger-Keeps a q c h b p

  clean-Keeps :
      (o : Option Bool) (a : Bool) (v : ℕ) (c : Annotation)
      → InPhase g a v in_progress c
      → Same c v
      → Keeps (world_of g a (stored (request v in_progress)) c ready) (
          on_cleanup s
            (request v in_progress)
            (job_of g (stored (request v in_progress)) c ready)
            o)
  clean-Keeps none a v c p q = tt
  clean-Keeps (some true) a v c p q = p
  clean-Keeps (some false) false v absent p q = absurd q
  clean-Keeps (some false) false v garbled p q = absurd q
  clean-Keeps (some false) false v (stored c) p q = absurd (omega arith)
  clean-Keeps (some false) true v c p q =
      if_rule (Keeps (world_of g true (stored (request v in_progress)) c ready)) s.updates
        (λ _. (omega arith, q)) (λ _. p)

  status-Keeps :
      (vs : List String) (a : Bool) (v : ℕ) (p : Progress) (c : Version)
      → InPhase g a v p (stored c)
      → c.version ≡ v
      → Keeps
          (world_of g a (stored (request v p)) (stored c) ready)
          (on_status s (request v p) (job_of g (stored (request v p)) (stored c) ready) vs p)
  unfolding wind_up
  status-Keeps vs false v succeeded c h e = absurd h
  status-Keeps vs true v succeeded c h e =
      victims-Keeps vs true (stored (request v succeeded)) (stored c) refl (omega arith) h
  status-Keeps vs a v in_progress c h e = clean-Keeps (cleanup_victim_pods s vs) a v (stored c) h e
  status-Keeps vs false v other c h e = absurd h
  status-Keeps vs true v other c h e = absurd h

  same-Keeps :
      (a : Bool) (v : ℕ) (p : Progress) (c : Annotation)
      → InPhase g a v p c
      → Keeps (world_of g a (stored (request v p)) c ready) (
          some (record {
            is_completed = false;
            has_error = false;
            job = job_of g (stored (request v p)) c ready;
          }))
  same-Keeps a v in_progress c h = h
  same-Keeps a v succeeded c h = h
  same-Keeps a v other c h = h

  pub versions-Keeps :
      (vs : List String) (a : Bool) (q c : Annotation)
      → Phase g a q c
      → Keeps (world_of g a q c ready) (on_versions s (job_of g q c ready) vs q c)
  versions-Keeps vs a absent absent h = victims-Keeps vs a absent absent refl tt tt
  versions-Keeps vs a absent garbled h = absurd h
  versions-Keeps vs a absent (stored c) h = absurd h
  versions-Keeps vs a garbled c h = absurd h
  versions-Keeps vs a (stored r) absent h = same-Keeps a r.version r.status absent h
  versions-Keeps vs a (stored r) garbled h = same-Keeps a r.version r.status garbled h
  versions-Keeps vs a (stored r) (stored c) h =
      if_rule (Keeps (world_of g a (stored r) (stored c) ready)) (r.version == c.version)
        (λ e. status-Keeps vs a r.version r.status c h (ground arith))
        (λ _. same-Keeps a r.version r.status (stored c) h)
