-- ===== src/Elastic/Checkpoints.antt =====
-- The protocol of the checkpoints, with the AIMaster and the users as environment.
use kubedl.Prelude.{ℕ, String, true, false, some, List, ◌≡◌, refl, ap, ◌∙◌, arith, ◌==◌}
use kubedl.Elastic.{
  failures, in_progress, Version, stored, Job, Server, cleanup_victim_pods, wound_up, wind_up,
  on_versions, checkpoint_if_necessary,
}
use kubedl.Elastic.Phase.{Phase, request}
use kubedl.Elastic.Grows.{Grows}

same_completes :
    (s : Server) (j : Job) (vs : List String) (v : ℕ) (c : Version)
    → c.version ≡ v
    → failures s.deletes vs ≡ 0
    → s.updates ≡ true
    → on_versions s j vs (stored (request v in_progress)) (stored c)
      ≡ some (record {
        is_completed = true;
        has_error = false;
        job = wound_up (request v in_progress) j;
      })
unfolding wind_up cleanup_victim_pods
same_completes s j vs v c g h k =
    let e : (v == c.version) ≡ true = ground arith in rw (e) (rw (h) (rw (k) refl))

-- When the AIMaster has answered the pending request and the API server accepts every deletion of
-- a victim and the update: the reconciliation completes the checkpoint, lets the workers start, and
-- moves the generation on.
pub checkpoint_if_necessary_completes :
    (s : Server) (j : Job) (vs : List String) (v : ℕ) (c : Version)
    → j.requested ≡ stored (request v in_progress)
    → j.completed ≡ stored c
    → c.version ≡ v
    → failures s.deletes vs ≡ 0
    → s.updates ≡ true
    → checkpoint_if_necessary s j vs
      ≡ some (record {
        is_completed = true;
        has_error = false;
        job = wound_up (request v in_progress) j;
      })
unfolding checkpoint_if_necessary
checkpoint_if_necessary_completes s j vs v c e f g h k =
    ap (λ q. on_versions s j vs q j.completed) e
    ∙ ap (λ q. on_versions s j vs (stored (request v in_progress)) q) f
    ∙ same_completes s j vs v c g h k
