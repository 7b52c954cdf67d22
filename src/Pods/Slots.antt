-- ===== src/Pods/Slots.antt =====
-- Which pods the slices hold.
use kubedl.Prelude.{
  ℕ, zero, suc, ◌+◌, ◌≤◌, ◌<◌, Bool, false, Option, none, some, List, [], ◌∷◌, ◌++◌, ◌≡◌, refl, sym,
  ap, ◌∙◌, arith, ◌==◌, leb, length, if◌then◌else◌, Bool-cases, inl, inr,
}
use mathlib.Core.List.{append_assoc, append-nil}
use kubedl.Prelude.Int.{ℤ, pos, negsuc}
use kubedl.Kube.{Pod, index_of}
use kubedl.Pods.{Slices, resize, append_at, place, place_all, get_pod_slices}

-- The slice of an index. Past the end there is nothing.
unfoldable pub slot : {A : Type 0} → ℕ → List (List A) → List A
slot i [] = []
slot zero (x ∷ xs) = x
slot (suc i) (x ∷ xs) = slot i xs

pub slot-resize :
    {A : Type 0} → (i n : ℕ) (xs : List (List A)) → i < n → slot i (resize n xs) ≡ slot i xs
unfolding slot resize
slot-resize i zero xs h = absurd (omega arith)
slot-resize zero (suc n) [] h = refl
slot-resize {A = A} (suc i) (suc n) [] h = slot-resize i n [] (omega arith) ∙ slot_nil i
  where
    slot_nil : (i : ℕ) → slot {A = A} i [] ≡ []
    slot_nil i = refl
slot-resize zero (suc n) (x ∷ xs) h = refl
slot-resize (suc i) (suc n) (x ∷ xs) h = slot-resize i n xs (omega arith)

pub length-resize : {A : Type 0} → (n : ℕ) (xs : List (List A)) → length (resize n xs) ≡ n
unfolding resize
length-resize zero xs = refl
length-resize {A = A} (suc n) [] = omega (arith, length-resize {A = A} n [])
length-resize (suc n) (x ∷ xs) = omega (arith, length-resize n xs)

pub slot-append_at :
    {A : Type 0}
    → (i j : ℕ) (p : A) (xs : List (List A)) → i < length xs
    → slot j (append_at i p xs) ≡ (if i == j then slot j xs ++ p ∷ [] else slot j xs)
unfolding slot append_at
slot-append_at i j p [] h = absurd (omega arith)
slot-append_at zero zero p (x ∷ xs) h = refl
slot-append_at zero (suc j) p (x ∷ xs) h = ground arith
slot-append_at (suc i) zero p (x ∷ xs) h = ground arith
slot-append_at (suc i) (suc j) p (x ∷ xs) h = ground (arith, slot-append_at i j p xs (omega arith))

pub length-append_at :
    {A : Type 0} → (i : ℕ) (p : A) (xs : List (List A)) → length (append_at i p xs) ≡ length xs
unfolding append_at
length-append_at i p [] = refl
length-append_at zero p (x ∷ xs) = refl
length-append_at (suc i) p (x ∷ xs) = omega (arith, length-append_at i p xs)

abbrev pub is_index : ℕ → Option ℤ → Bool
is_index i none = false
is_index i (some (negsuc n)) = false
is_index i (some (pos j)) = j == i

-- The pods of an index, in their order.
unfoldable pub pods_at : ℕ → List Pod → List Pod
pods_at i [] = []
pods_at i (p ∷ ps) =
    let rest = pods_at i ps in if is_index i (index_of p.labels) then p ∷ rest else rest

module _ (replicas : ℕ) where
  length-place :
      (o : Option ℤ) (p : Pod) (xs : Slices)
      → replicas ≤ length xs
      → replicas ≤ length (place replicas o p xs)
  length-place none p xs h = h
  length-place (some (negsuc n)) p xs h = h
  length-place (some (pos j)) p xs h = ground (
    arith,
    length-append_at j p xs,
    length-append_at j p (resize (j + 1) xs),
    length-resize (j + 1) xs,
  )

  slot-place :
      (i : ℕ) (o : Option ℤ) (p : Pod) (xs : Slices)
      → i < replicas
      → replicas ≤ length xs
      → slot i (place replicas o p xs) ≡ (if is_index i o then slot i xs ++ p ∷ [] else slot i xs)
  slot-place i none p xs h k = refl
  slot-place i (some (negsuc n)) p xs h k = refl
  slot-place i (some (pos j)) p xs h k = elim (Bool-cases (leb replicas j)) [
    | inl e ↦ rw e (
        slot-append_at j i p (resize (j + 1) xs) (omega (arith, length-resize (j + 1) xs))
        ∙ ground (arith, slot-resize i (j + 1) xs))
    | inr n ↦ rw n (slot-append_at j i p xs (ground arith))
  ]

  slot-place_all :
      (i : ℕ) (ps : List Pod) (xs : Slices)
      → i < replicas
      → replicas ≤ length xs
      → slot i (place_all replicas ps xs) ≡ slot i xs ++ pods_at i ps
  unfolding place_all pods_at
  slot-place_all i [] xs h k = sym (append-nil (slot i xs))
  slot-place_all i (p ∷ ps) xs h k = ground (
    arith,
    slot-place_all i ps (place replicas (index_of p.labels) p xs) h
        (length-place (index_of p.labels) p xs k),
    slot-place i (index_of p.labels) p xs h k,
    append_assoc (slot i xs) (p ∷ []) (pods_at i ps),
  )

  pub length-place_all :
      (ps : List Pod) (xs : Slices)
      → replicas ≤ length xs
      → replicas ≤ length (place_all replicas ps xs)
  unfolding place_all
  length-place_all [] xs h = h
  length-place_all (p ∷ ps) xs h =
      length-place_all ps (place replicas (index_of p.labels) p xs)
        (length-place (index_of p.labels) p xs h)

pub slot_empty : {A : Type 0} → (i n : ℕ) → slot {A = A} i (resize n []) ≡ []
unfolding slot resize
slot_empty i zero = refl
slot_empty zero (suc n) = refl
slot_empty (suc i) (suc n) = slot_empty i n

-- The slices are at least as many as the replicas, and the slice of each index below the replicas
-- holds exactly the pods with that index in their label, in their order.
pub get_pod_slices-pods_at :
    (ps : List Pod) (replicas : ℕ)
    → (replicas ≤ length (get_pod_slices ps replicas))
      × ((i : ℕ) → i < replicas → slot i (get_pod_slices ps replicas) ≡ pods_at i ps)
unfolding get_pod_slices
get_pod_slices-pods_at ps replicas = (
  length-place_all replicas ps (resize replicas []) (omega (arith, length-resize replicas [])),
  λ i h.
      slot-place_all replicas i ps (resize replicas []) h (omega (arith, length-resize replicas []))
      ∙ ap (λ xs. xs ++ pods_at i ps) (slot_empty i replicas),
)
