-- ===== src/Cron/Trim/InPlace.antt =====
-- A deletion in place is a deletion from the list.
use kubedl.Prelude.{
  ℕ, zero, suc, ◌-◌, ◌≤◌, ◌<◌, String, Bool, true, false, List, [], ◌∷◌, ◌≡◌, refl, ap, ◌∙◌, arith,
  map, str_eq, length, if◌then◌else◌, if_rule, Bool-cases, inl, inr,
}
use kubedl.Cron.{delete_from_active_list}
use kubedl.Cron.Trim.{Ref, Slice, take, uid_of, uids, shift_down, delete_in_array, delete_in_place}

take-shift_down :
    (n : ℕ) (r : Ref) (rs : List Ref) → n ≤ length rs → take n (shift_down n r rs) ≡ take n rs
unfolding take shift_down
take-shift_down zero r rs h = refl
take-shift_down (suc n) r [] h = absurd (omega arith)
take-shift_down (suc n) r (s ∷ rs) h = ap (◌∷◌ s) (take-shift_down n s rs (omega arith))

length-shift_down : (n : ℕ) (r : Ref) (rs : List Ref) → length (shift_down n r rs) ≡ length (r ∷ rs)
unfolding shift_down
length-shift_down zero r rs = refl
length-shift_down (suc n) r [] = refl
length-shift_down (suc n) r (s ∷ rs) = omega (arith, length-shift_down n s rs)

pub length-delete_in_array :
    (n : ℕ) (rs : List Ref) (uid : String) → length (delete_in_array n rs uid).0 ≡ length rs
unfolding delete_in_array
length-delete_in_array zero rs uid = refl
length-delete_in_array (suc n) [] uid = refl
length-delete_in_array (suc n) (r ∷ rs) uid =
    ground (arith, length-shift_down n r rs, length-delete_in_array n rs uid)

found_below : (n : ℕ) (rs : List Ref) (uid : String) → (delete_in_array n rs uid).1 ≡ true → 0 < n
unfolding delete_in_array
found_below zero rs uid h = cc
found_below (suc n) rs uid h = omega arith

abbrev shorter : Bool → ℕ → ℕ
shorter b n = if b then n - 1 else n

take-shorter :
    (b : Bool) (n : ℕ) (r : Ref) (rs : List Ref)
    → (b ≡ true → 0 < n)
    → take (shorter b (suc n)) (r ∷ rs) ≡ r ∷ take (shorter b n) rs
unfolding take
take-shorter true zero r rs h = absurd (omega (arith, h refl))
take-shorter true (suc n) r rs h =
    let e : suc (suc n) - 1 ≡ suc n = omega arith in
    let e' : suc n - 1 ≡ n = omega arith in rw (e, e') refl
take-shorter false n r rs h = refl

delete_in_array_lem :
    (n : ℕ) (rs : List Ref) (uid : String)
    → n ≤ length rs
    → map uid_of (take (shorter (delete_in_array n rs uid).1 n) (delete_in_array n rs uid).0)
      ≡ delete_from_active_list (map uid_of (take n rs)) uid
unfolding delete_in_array delete_from_active_list take
delete_in_array_lem zero rs uid h = refl
delete_in_array_lem (suc n) [] uid h = absurd (omega arith)
delete_in_array_lem (suc n) (r ∷ rs) uid h =
    let d = delete_in_array n rs uid in
    let one : suc n - 1 ≡ n = omega arith in
    elim (Bool-cases (str_eq r.uid uid)) [
      | inl e ↦ rw (e, one) (ap (map uid_of) (take-shift_down n r rs (omega arith)))
      | inr e ↦ rw e (
          ap (map uid_of) (take-shorter d.1 n r d.0 (found_below n rs uid))
          ∙ ap (◌∷◌ r.uid) (delete_in_array_lem n rs uid (omega arith)))
    ]

-- The length of a slice is at most that of its array.
abbrev pub IsSlice : Slice → Type 0
IsSlice s = s.len ≤ length s.array

pub delete_in_place-IsSlice :
    (uid : String) (s : Slice) → IsSlice s → IsSlice (delete_in_place uid s)
unfolding delete_in_place
delete_in_place-IsSlice uid s h =
    if_rule (λ n. n ≤ length (delete_in_array s.len s.array uid).0)
      (delete_in_array s.len s.array uid).1
      (λ e. omega (arith, length-delete_in_array s.len s.array uid))
      (λ e. omega (arith, length-delete_in_array s.len s.array uid))

-- deleteFromActiveList moves the references in the array of the slice; the uids of the slice are
-- then those of a list from which the first occurrence of the uid has been taken.
pub uids-delete_in_place :
    (uid : String) (s : Slice)
    → IsSlice s
    → uids (delete_in_place uid s) ≡ delete_from_active_list (uids s) uid
unfolding delete_in_place
uids-delete_in_place uid s h = delete_in_array_lem s.len s.array uid h
