-- ===== src/Gate/Dashes.antt =====
-- Which kinds a list of workloads enables.
use kubedl.Prelude.{
  String, Bool, true, false, ◌&&◌, ◌||◌, Option, some, List, [], ◌∷◌, ◌≡◌, refl, sym, ap, ◌∙◌,
  str_eq, str_eq_iff, Bool-cases, inl, inr,
}
use kubedl.Prelude.Map.{lookup, insert, has_key, lookup-insert}
use kubedl.Gate.{
  trim_space, flag_of, Parsed, parse_one, parse_all, split, parse_workloads_enabled, decide,
  enabled_by, is_workload_enable,
}

-- The name in a part of the list, without space around it and a dash in front of it.
abbrev pub name_of : String → String
name_of w = (flag_of (trim_space w)).0

-- Some part of the list is the name, or a star without a dash.
abbrev pub names : String → List String → Bool
names kind [] = false
names kind (w ∷ ws) =
    (str_eq (name_of w) kind || (str_eq (name_of w) "*" && (flag_of (trim_space w)).1))
    || names kind ws

abbrev is_star : String → Bool
is_star w = str_eq (name_of w) "*" && (flag_of (trim_space w)).1

or_false_same : (a : Bool) → a || false ≡ a
or_false_same true = refl
or_false_same false = refl

shuffle : (a b c : Bool) → a || (b || c) ≡ (b || a) || c
shuffle true true c = refl
shuffle true false c = refl
shuffle false true c = refl
shuffle false false c = refl

-- A kind is not the star, and not the empty text.
abbrev pub IsKind : String → Type 0
IsKind kind = (str_eq kind "" ≡ false) × (str_eq kind "*" ≡ false)

inserted_decides :
    (kind name : String) (f : Bool) (p : Parsed)
    → decide kind (record p { enables = insert name f p.enables })
      ≡ (str_eq name kind || decide kind p)
unfolding has_key
inserted_decides kind name f p = elim (Bool-cases p.enable_all) [
  | inl a ↦
      rw (a) (elim (Bool-cases (str_eq name kind)) [ inl e ↦ rw (e) refl | inr e ↦ rw (e) refl ])
  | inr a ↦
      rw (a, lookup-insert name kind f p.enables)
        (elim (Bool-cases (str_eq name kind)) [ inl e ↦ rw (e) refl | inr e ↦ rw (e) refl ])
]

differs :
    (kind name other : String)
    → str_eq kind other ≡ false
    → str_eq name other ≡ true
    → str_eq name kind ≡ false
differs kind name other h e = elim (Bool-cases (str_eq name kind)) [
  | inl s ↦
      let same : kind ≡ other = sym ((str_eq_iff name kind).0 s) ∙ (str_eq_iff name other).0 e in
      absurd (let t : str_eq kind other ≡ true = (str_eq_iff kind other).1 same in cc)
  | inr s ↦ s
]

one_decides :
    (kind w : String) (p : Parsed)
    → IsKind kind
    → decide kind (parse_one w p) ≡ (str_eq (name_of w) kind || is_star w) || decide kind p
unfolding parse_one
one_decides kind w p k = elim (Bool-cases (str_eq (name_of w) "*")) [
  | inl star ↦
      rw (star, differs kind (name_of w) "*" k.1 star)
        (elim (Bool-cases (flag_of (trim_space w)).1) [ inl f ↦ rw (f) refl | inr f ↦ rw (f) refl ])
  | inr plain ↦ elim (Bool-cases (str_eq (name_of w) "")) [
    | inl empty ↦ rw (plain, empty, differs kind (name_of w) "" k.0 empty) refl
    | inr full ↦
        rw (plain, full)
          (inserted_decides kind (name_of w) (flag_of (trim_space w)).1 p
            ∙ ap (λ b. b || decide kind p) (sym (or_false_same (str_eq (name_of w) kind))))
  ]
]

all_decide :
    (kind : String) (ws : List String) (p : Parsed)
    → IsKind kind
    → decide kind (parse_all ws p) ≡ names kind ws || decide kind p
unfolding parse_all
all_decide kind [] p k = refl
all_decide kind (w ∷ ws) p k =
    all_decide kind ws (parse_one w p) k
    ∙ ap (λ b. names kind ws || b) (one_decides kind w p k)
    ∙ shuffle (names kind ws) (str_eq (name_of w) kind || is_star w) (decide kind p)

-- With a list of workloads on the command line and nothing in the environment, a kind is enabled
-- exactly when the list has its name, even with the dash that is to disable it, or a star without a
-- dash.
pub is_workload_enable-names :
    (kind : String) (has_client : Bool) (resources : Option (List String)) (workloads : String)
    → IsKind kind
    → str_eq workloads "auto" ≡ false
    → is_workload_enable kind has_client resources (some workloads) ""
      ≡ names kind (split workloads)
unfolding is_workload_enable enabled_by parse_workloads_enabled has_key lookup
is_workload_enable-names kind has_client resources workloads k h =
    rw (h) (all_decide kind (split workloads) _ k ∙ or_false_same (names kind (split workloads)))
