-- ===== src/Cron/History/Merges.antt =====
-- What merging the workloads into the history makes of its entries.
use kubedl.Prelude.{
  ℕ, zero, suc, ◌+◌, ◌<◌, ◌≤◌, String, Bool, true, false, ◌||◌, some, List, [], ◌∷◌, ◌++◌, ◌≡◌, ◌/◌,
  refl, sym, ap, ◌∙◌, arith, is_some, str_eq, length, if◌then◌else◌, Option-cases, Bool-cases, inl,
  inr,
}
use mathlib.Core.Path.{subst}
use mathlib.Core.List.{append_assoc, append-nil}
use kubedl.Prelude.Map.{lookup, insert, lookup-insert}
use kubedl.Prelude.Format.{◌<>◌, decimal}
use kubedl.Cron.{second}
use kubedl.Cron.Trim.{Workload}
use kubedl.Cron.History.{
  Entry, workload_to_history, key, index_history, refresh_at, merge_workloads,
}

abbrev pub labels : List Entry → List (String × ℕ)
labels [] = []
labels (h ∷ hs) = (h.name, h.created) ∷ labels hs

-- An entry has the key.
abbrev pub has_entry : String → List Entry → Bool
has_entry k [] = false
has_entry k (h ∷ hs) = str_eq (key h) k || has_entry k hs

-- One entry for each workload whose key no entry of the history has.
abbrev pub new_entries : ℕ → List Workload → List Entry → List Entry
new_entries now [] hs = []
new_entries now (w ∷ ws) hs =
    let rest = new_entries now ws hs in
    let new = workload_to_history now w in if has_entry (key new) hs then rest else new ∷ rest

-- The names and creation times of the workloads whose key no entry of the history has.
abbrev pub new_labels : List Workload → List Entry → List (String × ℕ)
new_labels [] hs = []
new_labels (w ∷ ws) hs =
    let rest = new_labels ws hs in
    if has_entry (w.name <> "-" <> decimal (w.created / second)) hs
    then rest
    else (w.name, w.created) ∷ rest

pub new_entries-labels :
    (now : ℕ) (ws : List Workload) (hs : List Entry)
    → labels (new_entries now ws hs) ≡ new_labels ws hs
unfolding workload_to_history key
new_entries-labels now [] hs = refl
new_entries-labels now (w ∷ ws) hs =
    let rest = new_entries-labels now ws hs in
    elim (Bool-cases (has_entry (w.name <> "-" <> decimal (w.created / second)) hs)) [
      | inl e ↦ rw (e) rest
      | inr e ↦ rw (e) (ap (◌∷◌ (w.name, w.created)) rest)
    ]

-- The entries of the history, with their names and creation times, before the new ones.
pub record Merges (now : ℕ) (ws : List Workload) (hs all : List Entry) : Type 0 where
  pub refreshed : List Entry
  pub all_are : all ≡ refreshed ++ new_entries now ws hs
  pub same : labels refreshed ≡ labels hs

index_known :
    (i : ℕ) (hs : List Entry) (m : List (String × ℕ)) (k : String)
    → is_some (lookup k (index_history i hs m)) ≡ (has_entry k hs || is_some (lookup k m))
unfolding index_history
index_known i [] m k = refl
index_known i (h ∷ hs) m k =
    let at = lookup-insert (key h) k i m in
    let rest = index_known (i + 1) hs (insert (key h) i m) k in ground (arith, at, rest)

index_within :
    (n i : ℕ) (hs : List Entry) (m : List (String × ℕ))
    → i + length hs ≤ n
    → ((k : String) (j : ℕ) → lookup k m ≡ some j → j < n)
    → (k : String) (j : ℕ) → lookup k (index_history i hs m) ≡ some j
    → j < n
unfolding index_history
index_within n i [] m b h k j e = h k j e
index_within n i (x ∷ hs) m b h k j e =
    index_within n (i + 1) hs (insert (key x) i m) (omega arith)
      (λ k' j' e'. ground (arith, lookup-insert (key x) k' i m, h k' j')) k j e

refresh_at-labels :
    (i : ℕ) (new : Entry) (hs : List Entry) → labels (refresh_at i new hs) ≡ labels hs
unfolding refresh_at
refresh_at-labels zero new [] = refl
refresh_at-labels (suc i) new [] = refl
refresh_at-labels zero new (h ∷ hs) = refl
refresh_at-labels (suc i) new (h ∷ hs) = ap (◌∷◌ (h.name, h.created)) (refresh_at-labels i new hs)

refresh_at-append :
    (i : ℕ) (new : Entry) (xs ys : List Entry)
    → i < length xs
    → refresh_at i new (xs ++ ys) ≡ refresh_at i new xs ++ ys
unfolding refresh_at
refresh_at-append zero new [] ys h = absurd (omega arith)
refresh_at-append (suc i) new [] ys h = absurd (omega arith)
refresh_at-append zero new (x ∷ xs) ys h = refl
refresh_at-append (suc i) new (x ∷ xs) ys h =
    ap (◌∷◌ x) (refresh_at-append i new xs ys (omega arith))

length_of_labels : (xs ys : List Entry) → labels xs ≡ labels ys → length xs ≡ length ys
length_of_labels xs ys e = sym (counts xs) ∙ ap length e ∙ counts ys
  where
    counts : (zs : List Entry) → length (labels zs) ≡ length zs
    counts [] = refl
    counts (z ∷ zs) = ap suc (counts zs)

module _ (now : ℕ) (hs : List Entry) (m : List (String × ℕ))
    (known : (k : String) → is_some (lookup k m) ≡ has_entry k hs)
    (within : (k : String) (j : ℕ) → lookup k m ≡ some j → j < length hs) where
  -- From any refreshed entries and any new ones.
  loop_merges :
      (ws : List Workload) (old new : List Entry)
      → labels old ≡ labels hs
      → (old' : List Entry) × ((merge_workloads now m ws (old ++ new)
            ≡ old' ++ (new ++ new_entries now ws hs))
          × (labels old' ≡ labels hs))
  unfolding merge_workloads
  loop_merges [] old new e = (old, (rw (append-nil new) refl, e))
  loop_merges (w ∷ ws) old new e =
      let entry = workload_to_history now w in
      elim (Option-cases (lookup (key entry) m)) [
        | inl f ↦
            let absent : has_entry (key entry) hs ≡ false =
              sym (known (key entry)) ∙ ap is_some f in
            let (old', (g, h)) = loop_merges ws old (new ++ entry ∷ []) e in
            (
              old',
              (
                rw (f, absent, append_assoc old new (entry ∷ []))
                    (g
                      ∙ ap (λ xs. old' ++ xs)
                          (append_assoc new (entry ∷ []) (new_entries now ws hs))),
                h,
              ),
            )
        | inr (i, f) ↦
            let present : has_entry (key entry) hs ≡ true =
              sym (known (key entry)) ∙ ap is_some f in
            let inside : i < length old =
              omega (arith, within (key entry) i f, length_of_labels old hs e) in
            let (old', (g, h)) =
              loop_merges ws (refresh_at i entry old) new (refresh_at-labels i entry old ∙ e) in
            (old', (rw (f, present, refresh_at-append i entry old new inside) g, h))
      ]

pub merge_workloads-Merges :
    (now : ℕ) (ws : List Workload) (hs : List Entry)
    → Merges now ws hs (merge_workloads now (index_history 0 hs []) ws hs)
unfolding lookup
merge_workloads-Merges now ws hs =
    let m = index_history 0 hs [] in
    let (old, (e, f)) =
      loop_merges now hs m (λ k. ground (arith, index_known 0 hs [] k))
        (index_within (length hs) 0 hs [] (omega arith) (λ k j h. absurd (cc))) ws hs [] refl in
    record {
      refreshed = old;
      all_are =
          subst (λ xs. merge_workloads now m ws xs ≡ old ++ new_entries now ws hs) (append-nil hs)
            e;
      same = f;
    }
