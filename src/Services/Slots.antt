-- ===== src/Services/Slots.antt =====
-- Which services the slices hold.
use kubedl.Prelude.{
  ℕ, ◌+◌, ◌≤◌, ◌<◌, Bool, true, false, ◌||◌, Option, none, some, List, [], ◌∷◌, ◌++◌, ◌≡◌, refl,
  sym, ap, ◌∙◌, arith, ◌==◌, leb, length, if◌then◌else◌, Bool-cases, inl, inr,
}
use mathlib.Core.List.{append_assoc, append-nil}
use kubedl.Prelude.Int.{ℤ, pos, negsuc}
use kubedl.Kube.{index_of}
use kubedl.Pods.{resize, append_at}
use kubedl.Pods.Slots.{
  slot, slot-resize, length-resize, slot-append_at, length-append_at, slot_empty, is_index,
}
use kubedl.Services.{Service, place_service, place_services, get_service_slices}

-- The services of an index, in their order.
unfoldable pub services_at : ℕ → List Service → List Service
services_at i [] = []
services_at i (s ∷ ss) =
    let rest = services_at i ss in if is_index i (index_of s.labels) then s ∷ rest else rest

abbrev pub is_negative_index : Option ℤ → Bool
is_negative_index none = false
is_negative_index (some (pos i)) = false
is_negative_index (some (negsuc n)) = true

-- A service has a negative index in its label.
unfoldable pub any_negative : List Service → Bool
any_negative [] = false
any_negative (s ∷ ss) = is_negative_index (index_of s.labels) || any_negative ss

-- The slices, or that there are none: with a negative index there are none, without one the slices
-- are at least as many as the replicas and hold what `at` says below that number.
abbrev pub Sliced : ℕ → Bool → (ℕ → List Service) → Option (List (List Service)) → Type 0
Sliced replicas negative at none = negative ≡ true
Sliced replicas negative at (some ys) =
    (negative ≡ false) × (replicas ≤ length ys) × ((i : ℕ) → i < replicas → slot i ys ≡ at i)

same_slots :
    (replicas : ℕ)
    → (negative : Bool) → {at bt : ℕ → List Service} → ((i : ℕ) → i < replicas → at i ≡ bt i)
    → (r : Option (List (List Service))) → Sliced replicas negative at r
    → Sliced replicas negative bt r
same_slots replicas negative e none h = h
same_slots replicas negative e (some ys) h = (h.0, h.1, λ i k. h.2 i k ∙ e i k)

module _ (replicas : ℕ) where
  length-place :
      (j : ℕ) (s : Service) (xs : List (List Service))
      → replicas ≤ length xs
      → replicas ≤ length (append_at j s (if leb replicas j then resize (j + 1) xs else xs))
  length-place j s xs h = ground (
    arith,
    length-append_at j s xs,
    length-append_at j s (resize (j + 1) xs),
    length-resize (j + 1) xs,
  )

  slot-place :
      (i j : ℕ) (s : Service) (xs : List (List Service))
      → i < replicas
      → replicas ≤ length xs
      → slot i (append_at j s (if leb replicas j then resize (j + 1) xs else xs))
        ≡ (if j == i then slot i xs ++ s ∷ [] else slot i xs)
  slot-place i j s xs h k = elim (Bool-cases (leb replicas j)) [
    | inl e ↦ rw e (
        slot-append_at j i s (resize (j + 1) xs) (omega (arith, length-resize (j + 1) xs))
        ∙ ground (arith, slot-resize i (j + 1) xs))
    | inr n ↦ rw n (slot-append_at j i s xs (ground arith))
  ]

  place_service-Sliced :
      (o : Option ℤ) (s : Service) (ss : List Service) (xs : List (List Service))
      → replicas ≤ length xs
      → ((ys : List (List Service))
          → replicas ≤ length ys
          → Sliced replicas
              (any_negative ss)
              (λ i. slot i ys ++ services_at i ss)
              (place_services replicas ss ys))
      → Sliced replicas
          (is_negative_index o || any_negative ss)
          (λ i. slot i xs ++ (if is_index i o then s ∷ services_at i ss else services_at i ss))
          (elim (place_service replicas o s xs) [
            | none ↦ none
            | some ys ↦ place_services replicas ss ys
          ])
  place_service-Sliced none s ss xs h ih = ih xs h
  place_service-Sliced (some (negsuc n)) s ss xs h ih = refl
  place_service-Sliced (some (pos j)) s ss xs h ih =
      let ys = append_at j s (if leb replicas j then resize (j + 1) xs else xs) in
      same_slots replicas (any_negative ss)
        (λ i k.
          ground
            (arith, slot-place i j s xs k h, append_assoc (slot i xs) (s ∷ []) (services_at i ss)))
        (place_services replicas ss ys) (ih ys (length-place j s xs h))

  place_services-Sliced :
      (ss : List Service) (xs : List (List Service))
      → replicas ≤ length xs
      → Sliced replicas
          (any_negative ss)
          (λ i. slot i xs ++ services_at i ss)
          (place_services replicas ss xs)
  unfolding place_services any_negative services_at
  place_services-Sliced [] xs h = (refl, h, λ i k. sym (append-nil (slot i xs)))
  place_services-Sliced (s ∷ ss) xs h =
      place_service-Sliced (index_of s.labels) s ss xs h (place_services-Sliced ss)

-- GetServiceSlices panics exactly if a service has a negative index in its label. Else the slices
-- are at least as many as the replicas, and the slice of each index below the replicas holds
-- exactly the services with that index in their label, in their order.
pub get_service_slices-Sliced :
    (ss : List Service) (replicas : ℕ)
    → Sliced replicas (any_negative ss) (λ i. services_at i ss) (get_service_slices ss replicas)
unfolding get_service_slices
get_service_slices-Sliced ss replicas =
    same_slots replicas (any_negative ss)
      (λ i k. ap (λ xs. xs ++ services_at i ss) (slot_empty i replicas))
      (get_service_slices ss replicas)
      (place_services-Sliced replicas ss (resize replicas [])
        (omega (arith, length-resize {A = Service} replicas [])))
