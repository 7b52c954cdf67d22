-- ===== src/Services/Creates.antt =====
-- Which services are created.
use kubedl.Prelude.{
  ℕ, zero, suc, ◌+◌, ◌<◌, String, Bool, false, not, ◌&&◌, Option, none, some, List, [], ◌∷◌, ◌++◌,
  ◌≡◌, refl, sym, ap, ◌∙◌, arith, ◌==◌, leb, length, if◌then◌else◌, if_rule,
}
use kubedl.Prelude.Text.{to_lower}
use kubedl.Pods.Slots.{slot}
use kubedl.Services.{
  Service, filter_services_for_replica_type, get_service_slices, ServiceCall, create_service,
  delete_service, retarget_service, retarget, slice_calls, all_calls, until_error,
  reconcile_services,
}
use kubedl.Services.Slots.{services_at, any_negative, Sliced, get_service_slices-Sliced}

abbrev is_creation : ℕ → ServiceCall → Bool
is_creation i (create_service j) = j == i
is_creation i (delete_service name) = false
is_creation i (retarget_service name port) = false

-- How often the service of an index is created.
unfoldable pub creations : ℕ → List ServiceCall → ℕ
creations i [] = 0
creations i (c ∷ cs) = (if is_creation i c then 1 else 0) + creations i cs

abbrev pub one_if_empty : List Service → ℕ
one_if_empty [] = 1
one_if_empty (s ∷ ss) = 0

creations-append :
    (i : ℕ) (cs ds : List ServiceCall) → creations i (cs ++ ds) ≡ creations i cs + creations i ds
unfolding creations
creations-append i [] ds = omega arith
creations-append i (c ∷ cs) ds = omega (arith, creations-append i cs ds)

module _ (ports : ℕ → Option ℕ) (replicas : ℕ) where
  creations-retarget :
      (i : ℕ) (name : String) (port target : Option ℕ) → creations i (retarget name port target) ≡ 0
  unfolding creations
  creations-retarget i name none target = refl
  creations-retarget i name (some port) none = refl
  creations-retarget i name (some port) (some target) =
      if_rule (λ r. creations i r ≡ 0) (target == port) (λ e. refl) (λ e. refl)

  creations-slice_calls :
      (i j : ℕ) (x : List Service)
      → creations i (slice_calls ports replicas j x) ≡ (if j == i then one_if_empty x else 0)
  unfolding creations slice_calls
  creations-slice_calls i j [] = ground arith
  creations-slice_calls i j (s ∷ []) =
      let p = creations-retarget i s.name (ports j) s.target_port in
      if_rule (λ r. creations i r ≡ (if j == i then 0 else 0)) (leb replicas j && not s.is_deleting)
        (λ e. ground (arith, p)) (λ e. ground (arith, p))
  creations-slice_calls i j (s ∷ t ∷ ss) = ground arith

  creations-before :
      (i j : ℕ) (xs : List (List Service)) → i < j → creations i (all_calls ports replicas j xs) ≡ 0
  unfolding creations all_calls
  creations-before i j [] h = refl
  creations-before i j (x ∷ xs) h = ground (
    arith,
    creations-append i (slice_calls ports replicas j x) (all_calls ports replicas (j + 1) xs),
    creations-slice_calls i j x,
    creations-before i (j + 1) xs (omega arith),
  )

  creations-all_calls :
      (i j : ℕ) (xs : List (List Service))
      → i < length xs
      → creations (j + i) (all_calls ports replicas j xs) ≡ one_if_empty (slot i xs)
  unfolding all_calls slot
  creations-all_calls i j [] h = absurd (omega arith)
  creations-all_calls zero j (x ∷ xs) h = ground (
    arith,
    creations-append (j + 0) (slice_calls ports replicas j x) (all_calls ports replicas (j + 1) xs),
    creations-slice_calls (j + 0) j x,
    creations-before (j + 0) (j + 1) xs (omega arith),
  )
  creations-all_calls (suc i) j (x ∷ xs) h =
      let e : j + suc i ≡ j + 1 + i = omega arith in
      rw (e) (
        ground (
          arith,
          creations-append (j + 1 + i) (slice_calls ports replicas j x)
              (all_calls ports replicas (j + 1) xs),
          creations-slice_calls (j + 1 + i) j x,
          creations-all_calls i (j + 1) xs (omega arith),
        ))

until_error_none :
    (fails : ServiceCall → Bool)
    → ((c : ServiceCall) → fails c ≡ false)
    → (cs : List ServiceCall) → until_error fails cs ≡ (cs, false)
unfolding until_error
until_error_none fails good [] = refl
until_error_none fails good (c ∷ cs) = rw (good c, until_error_none fails good cs) refl

-- Calls are made, none returns an error, and the service of each index below the replicas is
-- created once if there is none at the index, and else not at all.
abbrev pub FillsGaps : ℕ → (ℕ → List Service) → Option (List ServiceCall × Bool) → Type 0
FillsGaps replicas at r =
    (cs : List ServiceCall) × (r ≡ some (cs, false))
    × ((i : ℕ) → i < replicas → creations i cs ≡ one_if_empty (at i))

module _ (fails : ServiceCall → Bool) (good : (c : ServiceCall) → fails c ≡ false)
    (ports : ℕ → Option ℕ) where
  Sliced-FillsGaps :
      (replicas : ℕ)
      → (negative : Bool) → negative ≡ false
      → (at : ℕ → List Service) → (r : Option (List (List Service))) → Sliced replicas negative at r
      → FillsGaps replicas at (elim r [
        | none ↦ none
        | some xs ↦ some (until_error fails (all_calls ports replicas 0 xs))
      ])
  Sliced-FillsGaps replicas negative e at none h = absurd (ground (arith, e, h))
  Sliced-FillsGaps replicas negative e at (some xs) h = (
    all_calls ports replicas 0 xs,
    ap some (until_error_none fails good (all_calls ports replicas 0 xs)),
    λ i k.
        let same : 0 + i ≡ i = omega arith in
        ap (λ n. creations n (all_calls ports replicas 0 xs)) (sym same)
        ∙ creations-all_calls ports replicas i 0 xs (omega (arith, h.1))
        ∙ ap one_if_empty (h.2 i k),
  )

-- When no call returns an error and no service of the type has a negative index in its label,
-- ReconcileServices ends without an error, and creates the service of each index below the
-- replicas exactly once if no service of the type has that index, and else not at all.
pub reconcile_services-FillsGaps :
    (fails : ServiceCall → Bool)
    → ((c : ServiceCall) → fails c ≡ false)
    → (ports : ℕ → Option ℕ) → (ss : List Service) (rtype : String) (replicas : ℕ)
    → any_negative (filter_services_for_replica_type ss (to_lower rtype)) ≡ false
    → FillsGaps replicas
        (λ i. services_at i (filter_services_for_replica_type ss (to_lower rtype)))
        (reconcile_services fails ports ss rtype replicas)
unfolding reconcile_services
reconcile_services-FillsGaps fails good ports ss rtype replicas h =
    let own = filter_services_for_replica_type ss (to_lower rtype) in
    Sliced-FillsGaps fails good ports replicas (any_negative own) h (λ i. services_at i own)
      (get_service_slices own replicas) (get_service_slices-Sliced own replicas)
