-- ===== src/Cron/History/Recent.antt =====
-- The history keeps the most recent entries.
use kubedl.Prelude.{
  ℕ, zero, suc, ◌-◌, ◌≤◌, ◌<◌, ◌==◌, ◌⊎◌, true, false, some, List, [], ◌∷◌, ◌++◌, ◌≡◌, refl, ap,
  arith, ltb, length, if◌then◌else◌, if_rule, Bool-cases, inl, inr,
}
use mathlib.Core.List.{Perm}
use mathlib.Core.List.Perm as Permutation
use kubedl.Prelude.Int.{pos}
use kubedl.Prelude.Text.{str_ltb, str_ltb_asym}
use mathlib.Core.Path.{subst}
use kubedl.Cron.History.Merges.{
  labels, new_entries, new_labels, new_entries-labels, merge_workloads-Merges,
}
use kubedl.Cron.Trim.{Workload}
use kubedl.Cron.History.{
  Entry, index_history, merge_workloads, less, insert_entry, sort_history, drop, truncate,
  refresh_cron_history,
}

less_asym : (a b : Entry) → less a b ≡ true → less b a ≡ false
unfolding less
less_asym a b h = ground (arith, str_ltb_asym a.name b.name)

-- No entry comes before the one on its left, in the order of the code.
abbrev IsSorted : List Entry → Type 0
IsSorted [] = Unit {0}
IsSorted (x ∷ []) = Unit {0}
IsSorted (x ∷ y ∷ zs) = (less y x ≡ false) × IsSorted (y ∷ zs)

-- The first entry was created before the second, or they were created at the same time and the name
-- of the second is not before that of the first.
abbrev pub InOrder : Entry → Entry → Type 0
InOrder x y = (x.created < y.created) ⊎ ((x.created ≡ y.created) × (str_ltb y.name x.name ≡ false))

abbrev pub AreInOrder : List Entry → Type 0
AreInOrder [] = Unit {0}
AreInOrder (x ∷ []) = Unit {0}
AreInOrder (x ∷ y ∷ zs) = InOrder x y × AreInOrder (y ∷ zs)

less-InOrder : (x y : Entry) → less y x ≡ false → InOrder x y
unfolding less
less-InOrder x y h = elim (Bool-cases (y.created == x.created)) [
  | inl e ↦ inr (ground arith, ground arith)
  | inr e ↦ inl (ground arith)
]

sorted-AreInOrder : (hs : List Entry) → IsSorted hs → AreInOrder hs
sorted-AreInOrder [] s = tt
sorted-AreInOrder (x ∷ []) s = tt
sorted-AreInOrder (x ∷ y ∷ zs) s = (less-InOrder x y s.0, sorted-AreInOrder (y ∷ zs) s.1)

insert-IsSorted : (h : Entry) (xs : List Entry) → IsSorted xs → IsSorted (insert_entry h xs)
unfolding insert_entry
insert-IsSorted h [] s = tt
insert-IsSorted h (x ∷ []) s =
    if_rule IsSorted (less h x) (λ e. (less_asym h x e, tt)) (λ e. (e, tt))
insert-IsSorted h (x ∷ y ∷ zs) s = elim (Bool-cases (less h x)) [
  | inl e ↦ rw (e) (less_asym h x e, s)
  | inr e ↦
      let ih = insert-IsSorted h (y ∷ zs) s.1 in
      elim (Bool-cases (less h y)) [
        | inl e' ↦ rw (e, e') (e, (less_asym h y e', s.1))
        | inr e' ↦ rw (e, e') (s.0, rw (e') at ih)
      ]
]

insert-perm : (h : Entry) (xs : List Entry) → Perm (insert_entry h xs) (h ∷ xs)
unfolding insert_entry
insert-perm h [] = Permutation.refl (h ∷ [])
insert-perm h (x ∷ xs) = elim (Bool-cases (less h x)) [
  | inl e ↦ rw (e) (Permutation.refl (h ∷ x ∷ xs))
  | inr e ↦
      rw (e) (Permutation.trans (Permutation.cons x (insert-perm h xs)) (Permutation.swap h x xs))
]

sort_history-IsSorted : (hs : List Entry) → IsSorted (sort_history hs)
unfolding sort_history
sort_history-IsSorted [] = tt
sort_history-IsSorted (h ∷ hs) = insert-IsSorted h (sort_history hs) (sort_history-IsSorted hs)

sort_history-perm : (hs : List Entry) → Perm (sort_history hs) hs
unfolding sort_history
sort_history-perm [] = Permutation.refl []
sort_history-perm (h ∷ hs) =
    Permutation.trans (insert-perm h (sort_history hs)) (Permutation.cons h (sort_history-perm hs))

prefix : ℕ → List Entry → List Entry
prefix zero hs = []
prefix (suc n) [] = []
prefix (suc n) (h ∷ hs) = h ∷ prefix n hs

prefix-append-drop : (n : ℕ) (hs : List Entry) → prefix n hs ++ drop n hs ≡ hs
unfolding prefix drop
prefix-append-drop zero hs = refl
prefix-append-drop (suc n) [] = refl
prefix-append-drop (suc n) (h ∷ hs) = ap (◌∷◌ h) (prefix-append-drop n hs)

length-drop : (n : ℕ) (hs : List Entry) → length (drop n hs) ≡ length hs - n
unfolding drop
length-drop zero hs = omega arith
length-drop (suc n) [] = omega arith
length-drop (suc n) (h ∷ hs) = omega (arith, length-drop n hs)

-- What a limit of `n` keeps of all entries: `dropped` and the kept ones are all entries in the
-- order of their times, and of their names where the times are equal, and the kept ones are as many as the limit allows.
pub record Keeps (n : ℕ) (all kept : List Entry) : Type 0 where
  pub dropped : List Entry
  pub perm : Perm (dropped ++ kept) all
  pub ordered : AreInOrder (dropped ++ kept)
  pub bounded : length kept ≤ n
  pub no_more : dropped ≡ [] ⊎ (length kept ≡ n)

truncate-Keeps :
    (n : ℕ) (hs all : List Entry)
    → Perm hs all
    → IsSorted hs
    → Keeps n all (if ltb n (length hs) then drop (length hs - n) hs else hs)
truncate-Keeps n hs all p s =
    let k = length hs - n in
    if_rule (Keeps n all) (ltb n (length hs))
      (λ e. record {
        dropped = prefix k hs;
        perm = rw (prefix-append-drop k hs) p;
        ordered = rw (prefix-append-drop k hs) (sorted-AreInOrder hs s);
        bounded = ground (arith, length-drop k hs);
        no_more = inr (ground (arith, length-drop k hs));
      })
      (λ e. record {
        dropped = [];
        perm = p;
        ordered = sorted-AreInOrder hs s;
        bounded = ground arith;
        no_more = inl refl;
      })

-- refreshCronHistory with a limit that is not negative: it ends without a panic, and keeps as many
-- entries as the limit allows, the ones created last, in the order of their creation. The entries are
-- the old ones, whose names and creation times stay, and one new one for each workload whose name and
-- second of creation no old entry has.
pub refresh_cron_history-Keeps :
    (now n : ℕ) (ws : List Workload) (hs : List Entry)
    → (kept : List Entry) × ((refresh_cron_history now (some (pos n)) ws hs ≡ some kept)
        × ((refreshed : List Entry) × ((labels refreshed ≡ labels hs)
              × ((labels (new_entries now ws hs) ≡ new_labels ws hs)
                  × Keeps n (refreshed ++ new_entries now ws hs) kept))))
unfolding refresh_cron_history truncate
refresh_cron_history-Keeps now n ws hs =
    let all = merge_workloads now (index_history 0 hs []) ws hs in
    let sorted = sort_history all in
    let v = merge_workloads-Merges now ws hs in
    let kept = if ltb n (length sorted) then drop (length sorted - n) sorted else sorted in
    (
      kept,
      (
        refl,
        (
          v.refreshed,
          (
            v.same,
            (
              new_entries-labels now ws hs,
              subst (λ xs. Keeps n xs kept) v.all_are
                  (truncate-Keeps n sorted all (sort_history-perm all) (sort_history-IsSorted all)),
            ),
          ),
        ),
      ),
    )
