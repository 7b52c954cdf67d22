-- ===== src/Defaults/Replicas.antt =====
-- What the loop over the replica specifications leaves of the containers of one.
use kubedl.Prelude.{
  ℕ, zero, suc, String, Bool, true, false, ◌&&◌, Option, none, some, List, [], ◌∷◌, ◌++◌, ◌≡◌, refl,
  arith, str_eq_refl, is_some, Bool-cases, inl, inr,
}
use kubedl.Defaults.{
  ContainerPort, Container, or_default, or_first, index_of_container, update_at, has_port, add_port,
  set_port, fallback_to_logs_on_error, enable_fallback_to_logs,
}

abbrev pub container_at : ℕ → List Container → Option Container
container_at i [] = none
container_at zero (c ∷ cs) = some c
container_at (suc i) (c ∷ cs) = container_at i cs

abbrev pub has_port_in : String → Option Container → Bool
has_port_in port none = false
has_port_in port (some c) = has_port port c.ports

-- The container of the name, or else the first one, has the port.
abbrev pub has_main_port : String → String → List Container → Bool
has_main_port container port cs =
    has_port_in port (container_at (or_first (index_of_container container cs)) cs)

-- Every container has a termination message policy.
abbrev pub all_set : List Container → Bool
all_set [] = true
all_set (c ∷ cs) = is_some c.termination_message_policy && all_set cs

has_port_append :
    (port : String) (number : ℕ) (ps : List ContainerPort)
    → has_port port (ps ++ record { name = port; container_port = number } ∷ []) ≡ true
unfolding has_port
has_port_append port number [] = rw (str_eq_refl port) refl
has_port_append port number (p ∷ ps) = ground (arith, has_port_append port number ps)

add_port-has_port :
    (port : String) (number : ℕ) (c : Container)
    → has_port port (add_port port number c).ports ≡ true
unfolding add_port
add_port-has_port port number c = elim (Bool-cases (has_port port c.ports)) [
  | inl e ↦ rw (e) e
  | inr e ↦ rw (e) (has_port_append port number c.ports)
]

add_port_same :
    (port : String) (number : ℕ) (c : Container)
    → has_port port c.ports ≡ true
    → add_port port number c ≡ c
unfolding add_port
add_port_same port number c h = rw (h) refl

add_port_name :
    (port : String) (number : ℕ) (c : Container) → (add_port port number c).name ≡ c.name
unfolding add_port
add_port_name port number c = elim (Bool-cases (has_port port c.ports)) [
  | inl e ↦ rw (e) refl
  | inr e ↦ rw (e) refl
]

add_port_policy :
    (port : String) (number : ℕ) (c : Container)
    → (add_port port number c).termination_message_policy ≡ c.termination_message_policy
unfolding add_port
add_port_policy port number c = elim (Bool-cases (has_port port c.ports)) [
  | inl e ↦ rw (e) refl
  | inr e ↦ rw (e) refl
]

-- What adding the port at an index leaves as it is, and what it sets.
module _ (container port : String) (number : ℕ) where
  abbrev add : Container → Container
  add = add_port port number

  abbrev push : Container → Option (List Container) → Option (List Container)
  push c o = elim o [ none ↦ none | some ds ↦ some (c ∷ ds) ]

  abbrev Named : List Container → Option (List Container) → Type 0
  Named cs none = Unit {0}
  Named cs (some ds) = index_of_container container ds ≡ index_of_container container cs

  push-Named :
      (c : Container) (cs : List Container) (o : Option (List Container))
      → Named cs o
      → Named (c ∷ cs) (push c o)
  unfolding index_of_container
  push-Named c cs none h = tt
  push-Named c cs (some ds) h = rw (h) refl

  add-Named : (i : ℕ) (cs : List Container) → Named cs (update_at i add cs)
  unfolding update_at index_of_container
  add-Named i [] = tt
  add-Named zero (c ∷ cs) = rw (add_port_name port number c) refl
  add-Named (suc i) (c ∷ cs) = push-Named c cs (update_at i add cs) (add-Named i cs)

  abbrev Kept : List Container → Option (List Container) → Type 0
  Kept cs none = Unit {0}
  Kept cs (some ds) = all_set ds ≡ all_set cs

  push-Kept :
      (c : Container) (cs : List Container) (o : Option (List Container))
      → Kept cs o
      → Kept (c ∷ cs) (push c o)
  push-Kept c cs none h = tt
  push-Kept c cs (some ds) h = rw (h) refl

  add-Kept : (i : ℕ) (cs : List Container) → Kept cs (update_at i add cs)
  unfolding update_at
  add-Kept i [] = tt
  add-Kept zero (c ∷ cs) = rw (add_port_policy port number c) refl
  add-Kept (suc i) (c ∷ cs) = push-Kept c cs (update_at i add cs) (add-Kept i cs)

  abbrev Ported : ℕ → Option (List Container) → Type 0
  Ported i none = Unit {0}
  Ported i (some ds) = has_port_in port (container_at i ds) ≡ true

  push-Ported :
      (i : ℕ) (c : Container) (o : Option (List Container)) → Ported i o → Ported (suc i) (push c o)
  push-Ported i c none h = tt
  push-Ported i c (some ds) h = h

  add-Ported : (i : ℕ) (cs : List Container) → Ported i (update_at i add cs)
  unfolding update_at
  add-Ported i [] = tt
  add-Ported zero (c ∷ cs) = add_port-has_port port number c
  add-Ported (suc i) (c ∷ cs) = push-Ported i c (update_at i add cs) (add-Ported i cs)

  update_at_same :
      (i : ℕ) (cs : List Container)
      → has_port_in port (container_at i cs) ≡ true
      → update_at i add cs ≡ some cs
  unfolding update_at
  update_at_same i [] h = absurd cc
  update_at_same zero (c ∷ cs) h = rw (add_port_same port number c h) refl
  update_at_same (suc i) (c ∷ cs) h = rw (update_at_same i cs h) refl

  abbrev pub Main : List Container → Option (List Container) → Type 0
  Main cs none = Unit {0}
  Main cs (some ds) = (has_main_port container port ds ≡ true) × (all_set ds ≡ all_set cs)

  joined-Main :
      (cs : List Container) (o : Option (List Container))
      → Named cs o
      → Kept cs o
      → Ported (or_first (index_of_container container cs)) o
      → Main cs o
  joined-Main cs none n k p = tt
  joined-Main cs (some ds) n k p = (rw (n) p, k)

  pub set_port-Main : (cs : List Container) → Main cs (set_port container port number cs)
  unfolding set_port
  set_port-Main cs =
      let i = or_first (index_of_container container cs) in
      joined-Main cs (update_at i add cs) (add-Named i cs) (add-Kept i cs) (add-Ported i cs)

  pub set_port_same :
      (cs : List Container)
      → has_main_port container port cs ≡ true
      → set_port container port number cs ≡ some cs
  unfolding set_port
  set_port_same cs h = update_at_same (or_first (index_of_container container cs)) cs h

pub or_default-is_some : {A : Type 0} (d : A) (o : Option A) → is_some (or_default d o) ≡ true
or_default-is_some d none = refl
or_default-is_some d (some x) = refl

pub enable_all_set : (cs : List Container) → all_set (enable_fallback_to_logs cs) ≡ true
unfolding enable_fallback_to_logs
enable_all_set [] = refl
enable_all_set (c ∷ cs) =
    rw
      (enable_all_set cs, or_default-is_some fallback_to_logs_on_error c.termination_message_policy)
      refl

pub or_default_same : {A : Type 0} (d : A) (o : Option A) → is_some o ≡ true → or_default d o ≡ o
or_default_same d none h = absurd cc
or_default_same d (some x) h = refl

pub all_set_enable : (cs : List Container) → all_set cs ≡ true → enable_fallback_to_logs cs ≡ cs
unfolding enable_fallback_to_logs
all_set_enable [] h = refl
all_set_enable (c ∷ cs) h =
    rw
      (
        or_default_same fallback_to_logs_on_error c.termination_message_policy (ground arith),
        all_set_enable cs (ground arith),
      )
      refl
