-- ===== src/Rollup/Reaches.antt =====
-- The rule for what a loop over the specifications reaches at its end, whatever the order.
use kubedl.Prelude.{String, Option, none, some, [], ◌∷◌, ◌≡◌, refl}
use mathlib.Core.Path.{subst}
use mathlib.Core.List.{Memᴰ}
use kubedl.Prelude.Map.{lookup}
use kubedl.Api.{ReplicaSpec, ReplicaStatus}
use kubedl.Rollup.{Roll, Specs, Flow, next, returned, refused, panics, loop}

-- The flow goes on, in a state with the property.
pub data GoesOn {ℓ} (P : Roll → Type ℓ) : Flow → Type ℓ where
  on : {r : Roll} → P r → GoesOn P (next r)

abbrev Body : Type 0
Body = String → ReplicaSpec → ReplicaStatus → Roll → Flow

module _ {ℓ κ} (P : Roll → Type ℓ) (Q : Roll → Type κ) (body : Body) (rest : Specs)
    (k : (r : Roll) → P r → GoesOn Q (loop body rest r)) where
  on_next :
      (f : Flow)
      → GoesOn P f
      → GoesOn Q (elim f [
        | next r' ↦ loop body rest r'
        | returned r' ↦ returned r'
        | refused r' ↦ refused r'
        | panics ↦ panics
      ])
  on_next (next r) (on p) = k r p
  on_next (returned r) p = elim p [ ]
  on_next (refused r) p = elim p [ ]
  on_next panics p = elim p [ ]

  on_entry :
      (o : Option ReplicaStatus) (r : Roll) (rtype : String) (spec : ReplicaSpec)
      → (o ≡ none → P r)
      → ((st : ReplicaStatus) → o ≡ some st → GoesOn P (body rtype spec st r))
      → GoesOn Q (elim o [
        | none ↦ loop body rest r
        | some st ↦ elim (body rtype spec st r) [
          | next r' ↦ loop body rest r'
          | returned r' ↦ returned r'
          | refused r' ↦ refused r'
          | panics ↦ panics
        ]
      ])
  on_entry none r rtype spec skip step = k r (skip refl)
  on_entry (some st) r rtype spec skip step = on_next (body rtype spec st r) (step st refl)

-- A property that every body keeps.
abbrev Keeps {ℓ} : Body → (Roll → Type ℓ) → Type ℓ
Keeps body P =
    (t : String) (spec : ReplicaSpec) (st : ReplicaStatus) (r : Roll)
    → P r
    → GoesOn P (body t spec st r)

module _ {ℓ} (body : Body) (Q : Roll → Type ℓ) (keep : Keeps body Q) where
  -- What every body keeps, the whole loop keeps, to its end.
  pub loop-GoesOn : (specs : Specs) (r : Roll) → Q r → GoesOn Q (loop body specs r)
  unfolding loop
  loop-GoesOn [] r q = on q
  loop-GoesOn ((t, spec) ∷ rest) r q =
      on_entry Q Q body rest (loop-GoesOn rest) (lookup t r.status.replica_statuses) r t spec
        (λ _. q) (λ st _. keep t spec st r q)

  -- One entry of the map establishes `Q`, from `P`, which every body keeps; then `Q` holds at the
  -- end.
  pub loop_hits {κ} :
      (P : Roll → Type κ) (rtype : String) (spec : ReplicaSpec) (st : ReplicaStatus)
      → Keeps body P
      → ((r : Roll) → P r → lookup rtype r.status.replica_statuses ≡ some st)
      → ((r : Roll) → P r → GoesOn Q (body rtype spec st r))
      → (specs : Specs) → Memᴰ (rtype, spec) specs
      → (r : Roll) → P r
      → GoesOn Q (loop body specs r)
  unfolding loop
  loop_hits P rtype spec st keep_p look hit [] m r p = elim m [ ]
  loop_hits P rtype spec st keep_p look hit ((t, sp) ∷ rest) (Memᴰ.tail m) r p =
      on_entry P Q body rest (loop_hits P rtype spec st keep_p look hit rest m)
        (lookup t r.status.replica_statuses) r t sp (λ _. p) (λ u _. keep_p t sp u r p)
  loop_hits P rtype spec st keep_p look hit ((t, sp) ∷ rest) (Memᴰ.head e) r p =
      subst (λ (entry : String × ReplicaSpec). GoesOn Q (loop body (entry ∷ rest) r)) e
        (on_entry Q Q body rest (loop-GoesOn rest) (lookup rtype r.status.replica_statuses) r rtype
          spec (λ none_there. absurd (cc (look r p)))
          (λ u found. subst (λ v. GoesOn Q (body rtype spec v r)) (cc (look r p)) (hit r p)))
