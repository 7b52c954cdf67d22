-- ===== src/Defaults/Complete/Upstream.antt =====
-- The upstream types of a TFJob, and the names of its types, through the loop over its replicas.
use kubedl.Prelude.{
  String, true, false, not, ◌&&◌, Option, none, some, [], ◌∷◌, ◌≡◌, refl, sym, ap, ◌∙◌, arith,
  str_eq, str_eq_iff, if_rule, Bool-cases, inl, inr,
}
use kubedl.Prelude.Map.{lookup, has_key}
use kubedl.Defaults.{
  Replica, Specs, each, find_variant, set_type_name, set_upstream, modify, running_upstream,
  equal_fold,
}

abbrev pub waiting : String → Replica → Replica
waiting upstream r = record r { depend_on = running_upstream upstream ∷ [] }

-- Every specification of the type waits for the upstream type alone.
abbrev pub AllWait : String → String → Specs → Type 0
AllWait d u [] = Unit {0}
AllWait d u ((k, r) ∷ m) =
    (str_eq k d ≡ true → r.depend_on ≡ running_upstream u ∷ []) × AllWait d u m

-- As long as the job has both types.
abbrev pub Settled : String → String → Specs → Type 0
Settled d u m = has_key d m && has_key u m ≡ true → AllWait d u m

has_key-modify :
    (k d : String) (f : Replica → Replica) (m : Specs) → has_key k (modify d f m) ≡ has_key k m
unfolding has_key lookup modify
has_key-modify k d f [] = refl
has_key-modify k d f ((j, r) ∷ m) = ground (arith, has_key-modify k d f m)

modify_same : (d u : String) (m : Specs) → AllWait d u m → modify d (waiting u) m ≡ m
unfolding modify
modify_same d u [] h = refl
modify_same d u ((k, r) ∷ m) h = elim (Bool-cases (str_eq k d)) [
  | inl e ↦
      rw (e, modify_same d u m h.1) (ap (λ x. (k, record r { depend_on = x }) ∷ m) (sym (h.0 e)))
  | inr e ↦ rw (e, modify_same d u m h.1) refl
]

modify-AllWait : (d u : String) (m : Specs) → AllWait d u (modify d (waiting u) m)
unfolding modify
modify-AllWait d u [] = tt
modify-AllWait d u ((k, r) ∷ m) = (λ e. rw (e) refl, modify-AllWait d u m)

modify-AllWait-other :
    (d d' u : String) (f : Replica → Replica) (m : Specs)
    → str_eq d d' ≡ false
    → AllWait d u m
    → AllWait d u (modify d' f m)
unfolding modify
modify-AllWait-other d d' u f [] n h = tt
modify-AllWait-other d d' u f ((k, r) ∷ m) n h =
    let differs : str_eq k d ≡ true → str_eq k d' ≡ false =
      λ e. ap (λ x. str_eq x d') ((str_eq_iff k d).0 e) ∙ n in
    (λ e. rw (differs e) (h.0 e), modify-AllWait-other d d' u f m n h.1)

pub set_upstream_same : (d u : String) (m : Specs) → Settled d u m → set_upstream d u m ≡ m
unfolding set_upstream
set_upstream_same d u m h = elim (Bool-cases (has_key d m && has_key u m)) [
  | inl e ↦ rw (e) (modify_same d u m (h e))
  | inr e ↦ rw (e) refl
]

pub set_upstream-Settled : (d u : String) (m : Specs) → Settled d u (set_upstream d u m)
unfolding set_upstream
set_upstream-Settled d u m =
    if_rule (Settled d u) (has_key d m && has_key u m) (λ _ _. modify-AllWait d u m)
      (λ n h. absurd cc)

pub set_upstream-Settled-other :
    (d d' u : String) (m : Specs)
    → str_eq d d' ≡ false
    → Settled d u m
    → Settled d u (set_upstream d' u m)
unfolding set_upstream
set_upstream-Settled-other d d' u m n h =
    if_rule (Settled d u) (has_key d' m && has_key u m)
      (λ _ e.
        modify-AllWait-other d d' u (waiting u) m n
          (h (rw (has_key-modify d d' (waiting u) m, has_key-modify u d' (waiting u) m) at e)))
      (λ _. h)

-- The loop keeps the types, and with them what was settled and what was in the right case.
module _ (f : String → Replica → Option Replica) where
  abbrev pub Depends : Replica → Option Replica → Type 0
  Depends r none = Unit {0}
  Depends r (some r') = r'.depend_on ≡ r.depend_on

  abbrev pub SameKeys : Specs → Option Specs → Type 0
  SameKeys m none = Unit {0}
  SameKeys m (some m') =
      ((k : String) → has_key k m' ≡ has_key k m)
      × (((d u : String) → AllWait d u m → AllWait d u m')
          × ((type : String) → find_variant type m ≡ none → find_variant type m' ≡ none))

  cons-SameKeys :
      (k : String) (r r' : Replica) (m : Specs) (o : Option Specs)
      → Depends r (some r')
      → SameKeys m o
      → SameKeys ((k, r) ∷ m) (elim o [ none ↦ none | some m' ↦ some ((k, r') ∷ m') ])
  unfolding has_key lookup find_variant
  cons-SameKeys k r r' m none d h = tt
  cons-SameKeys k r r' m (some m') d h = (
    λ j. ground (arith, h.0 j),
    (
      λ x u w. (λ e. d ∙ w.0 e, h.1.0 x u w.1),
      λ type v. elim (Bool-cases (equal_fold k type && not (str_eq k type))) [
        | inl e ↦ let w : some (k, r) ≡ none = rw (e) at v in absurd (cc)
        | inr e ↦ rw (e) (h.1.1 type (rw (e) at v))
      ],
    ),
  )

  first-SameKeys :
      (k : String) (r : Replica) (m : Specs) (o : Option Replica) (q : Option Specs)
      → Depends r o
      → SameKeys m q
      → SameKeys ((k, r) ∷ m) (elim o [
        | none ↦ none
        | some r' ↦ elim q [ none ↦ none | some m' ↦ some ((k, r') ∷ m') ]
      ])
  first-SameKeys k r m none q d h = tt
  first-SameKeys k r m (some r') q d h = cons-SameKeys k r r' m q d h

  pub each-SameKeys :
      ((k : String) (r : Replica) → Depends r (f k r)) → (m : Specs) → SameKeys m (each f m)
  unfolding each
  each-SameKeys d [] = (λ k. refl, (λ x u w. w, λ type v. v))
  each-SameKeys d ((k, r) ∷ m) = first-SameKeys k r m (f k r) (each f m) (d k r) (each-SameKeys d m)

modify_names :
    (d : String) (f : Replica → Replica) (type : String) (m : Specs)
    → find_variant type m ≡ none
    → find_variant type (modify d f m) ≡ none
unfolding find_variant modify
modify_names d f type [] v = refl
modify_names d f type ((k, r) ∷ m) v =
    elim (Bool-cases (equal_fold k type && not (str_eq k type))) [
      | inl e ↦
          let w : ◌≡◌ {A = Option (String × Replica)} (some (k, r)) none = rw (e) at v in
          absurd (cc)
      | inr e ↦ rw (e) (modify_names d f type m (rw (e) at v))
    ]

pub set_upstream_names :
    (d u type : String) (m : Specs)
    → find_variant type m ≡ none
    → find_variant type (set_upstream d u m) ≡ none
unfolding set_upstream
set_upstream_names d u type m v =
    if_rule (λ x. find_variant type x ≡ none) (has_key d m && has_key u m)
      (λ _. modify_names d (waiting u) type m v) (λ _. v)

pub set_type_name_same :
    (type : String) (m : Specs) → find_variant type m ≡ none → set_type_name type m ≡ m
unfolding set_type_name
set_type_name_same type m h = rw (set_type_name, h) refl
