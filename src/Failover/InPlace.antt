-- ===== src/Failover/InPlace.antt =====
-- When the restart of a pod in place is reported as complete.
use kubedl.Prelude.{String, true, ◌≡◌, refl, ◌↔◌, ◌⊎◌, arith, str_eq, str_eq_iff}
use mathlib.Core.Path.{subst}
use kubedl.Prelude.{sym}
use kubedl.Failover.{
  RecreateRequest, Answer, found, not_found, get_failed, Server, is_done, is_failed_request,
  restart_with, restart_pod,
}

-- There is a request of the job's generation that has finished, or one that has failed and whose
-- pod could be deleted.
pub record Completes (s : Server) (generation : String) (a : Answer) : Type 0 where
  pub request : RecreateRequest
  pub is_found : a ≡ found request
  pub current : request.generation ≡ generation
  pub ends :
      (is_done request.phase ≡ true)
      ⊎ ((is_failed_request request.phase ≡ true) × (s.deletes_pod ≡ true))

restart_with_current :
    (s : Server) (generation : String) (r : RecreateRequest)
    → (restart_with s generation r).completed ≡ true
    → str_eq r.generation generation ≡ true
unfolding restart_with
restart_with_current s generation r h = ground arith

restart_with_ends :
    (s : Server) (generation : String) (r : RecreateRequest)
    → (restart_with s generation r).completed ≡ true
    → (is_done r.phase ≡ true) ⊎ ((is_failed_request r.phase ≡ true) × (s.deletes_pod ≡ true))
unfolding restart_with
restart_with_ends s generation r h = ground arith

restart_with_of :
    (s : Server) (generation : String) (r : RecreateRequest)
    → str_eq r.generation generation ≡ true
    → (is_done r.phase ≡ true) ⊎ ((is_failed_request r.phase ≡ true) × (s.deletes_pod ≡ true))
    → (restart_with s generation r).completed ≡ true
unfolding restart_with
restart_with_of s generation r h k = ground arith

ended_request :
    (s : Server) (generation : String) (a : Answer)
    → (restart_pod s generation a).completed ≡ true
    → Completes s generation a
unfolding restart_pod
ended_request s generation (found r) h = record {
  request = r;
  is_found = refl;
  current = (str_eq_iff r.generation generation).0 (restart_with_current s generation r h);
  ends = restart_with_ends s generation r h;
}
ended_request s generation not_found h = absurd (cc)
ended_request s generation get_failed h = absurd (cc)

of_Completes :
    (s : Server) (generation : String) (a : Answer)
    → Completes s generation a
    → (restart_pod s generation a).completed ≡ true
unfolding restart_pod
of_Completes s generation a v =
    subst (λ x. (restart_pod s generation x).completed ≡ true) (sym v.is_found)
      (restart_with_of s generation v.request
        ((str_eq_iff v.request.generation generation).1 v.current) v.ends)

-- The restart of a pod in place is reported as complete exactly when a request of the job's
-- generation has finished, or has failed and the pod could be deleted instead.
pub restart_pod-Completes :
    (s : Server) (generation : String) (a : Answer)
    → ((restart_pod s generation a).completed ≡ true) ↔ Completes s generation a
restart_pod-Completes s generation a = (ended_request s generation a, of_Completes s generation a)
