-- ===== src/Cron/Trim/Missing.antt =====
-- Which references leave the active list.
use kubedl.Prelude.{
  ℕ, zero, suc, ◌+◌, ◌≤◌, ◌<◌, ◌⊎◌, String, Bool, true, false, some, List, [], ◌∷◌, ◌≡◌, refl, ap,
  ◌∙◌, arith, map, elem, str_eq, str_eq_iff, str_eq_refl, length, if◌then◌else◌, Bool-cases, inl,
  inr,
}
use kubedl.Cron.Trim.{
  Ref, Workload, Slice, Trim, trim_all, delete_in_place, get_elem?, Presence, present, missing,
  unreadable, judge, keep_ref, drop_ref, trim_missing, of_refs, shift_down, delete_in_array,
  trim_finished_workloads, Reads, workload_uid,
}
use kubedl.Cron.Trim.InPlace.{length-delete_in_array}
use kubedl.Cron.Trim.Retires.{
  IsTidy, delete-IsTidy, active, active-delete, retired, IsForgotten, trim_all-Without,
}

-- A list of known uids is not touched by the loop over the references.
record Untouched (known : List String) (s s' : Slice) : Type 0 where
  tidy : IsTidy s'
  size : length s'.array ≡ length s.array
  actives : (v : String) → elem v known ≡ true → active s' v ≡ active s v

Untouched-trans :
    {known : List String} {s t u : Slice}
    → Untouched known s t
    → Untouched known t u
    → Untouched known s u
Untouched-trans a b = record {
  tidy = b.tidy;
  size = b.size ∙ a.size;
  actives = λ v k. b.actives v k ∙ a.actives v k;
}

length-delete_in_place :
    (u : String) (s : Slice) → length (delete_in_place u s).array ≡ length s.array
unfolding delete_in_place
length-delete_in_place u s = length-delete_in_array s.len s.array u

delete-Untouched :
    (known : List String) (u : String) (s : Slice)
    → IsTidy s
    → elem u known ≡ false
    → Untouched known s (delete_in_place u s)
delete-Untouched known u s h out = record {
  tidy = delete-IsTidy u s h;
  size = length-delete_in_place u s;
  actives = λ v k. elim (Bool-cases (str_eq u v)) [
    | inl e ↦ absurd (ground (arith, ap (λ x. elem x known) ((str_eq_iff u v).0 e)))
    | inr e ↦ active-delete u v s h ∙ rw (e) refl
  ];
}

get_elem?_below : (rs : List Ref) (i : ℕ) → i < length rs → (r : Ref) × (get_elem? rs i ≡ some r)
get_elem?_below [] i h = absurd (omega arith)
get_elem?_below (r ∷ rs) zero h = (r, refl)
get_elem?_below (r ∷ rs) (suc i) h = get_elem?_below rs i (omega arith)

abbrev pub IsReadable : Presence → Type 0
IsReadable present = Unit {0}
IsReadable missing = Unit {0}
IsReadable unreadable = ⊥

judge_cases :
    (k h : Bool) (p : Presence)
    → IsReadable p
    → (judge k h p ≡ keep_ref) ⊎ ((judge k h p ≡ drop_ref) × (k ≡ false))
judge_cases true h p ok = inl refl
judge_cases false false p ok = inl refl
judge_cases false true present ok = inl refl
judge_cases false true missing ok = inr (refl, refl)
judge_cases false true unreadable ok = absurd ok

trim_missing-Untouched :
    (has_kind : Ref → Bool) (presence : Ref → Presence) (known : List String)
    → ((r : Ref) → IsReadable (presence r))
    → (n i : ℕ) (s : Slice) → IsTidy s
    → n + i ≤ length s.array
    → (s' : Slice) × (trim_missing has_kind presence known n i s ≡ some s') × Untouched known s s'
unfolding trim_missing
trim_missing-Untouched has_kind presence known ok zero i s h k =
    (s, refl, record { tidy = h; size = refl; actives = λ v e. refl })
trim_missing-Untouched has_kind presence known ok (suc n) i s h k =
    let (r, e) = get_elem?_below s.array i (omega arith) in
    let kept = trim_missing-Untouched has_kind presence known ok n (i + 1) s h (omega arith) in
    elim (judge_cases (elem r.uid known) (has_kind r) (presence r) (ok r)) [
      | inl j ↦ (kept.0, rw (e, trim_missing, j) kept.1, kept.2)
      | inr (j, out) ↦
          let t = delete_in_place r.uid s in
          let d = delete-Untouched known r.uid s h out in
          let (s', e', u) =
            trim_missing-Untouched has_kind presence known ok n (i + 1) t d.tidy
              (omega (arith, d.size)) in
          (s', rw (e, trim_missing, j) e', Untouched-trans d u)
    ]

-- What is left of the active list: of the workloads that were listed, those that have finished are
-- gone, and the others are active if they were.
pub record Trims (ws : List Workload) (s s' : Slice) : Type 0 where
  pub tidy : IsTidy s'
  pub listed :
      (v : String)
      → elem v (map workload_uid ws) ≡ true
      → active s' v ≡ (if retired ws v then false else active s v)

-- trimFinishedWorkloadsFromActiveList, on a list without a uid twice, when every reference can be
-- looked up and reading the cron again yields a list that also lacks the workload that was asked
-- for: it ends without an error, and of the listed workloads it removes from the active list
-- exactly those that have finished. The list keeps being without a uid twice.
pub trim_finished_workloads-Trims :
    (reads : Reads) (ws : List Workload) (s : Slice)
    → ((w : Workload) → IsForgotten w (reads.latest w))
    → ((r : Ref) → IsReadable (reads.presence r))
    → IsTidy s
    → (s' : Slice) × (trim_finished_workloads reads ws s ≡ some s') × Trims ws s s'
unfolding trim_finished_workloads
trim_finished_workloads-Trims reads ws s f ok h =
    let start : Trim = record { current = s; callers = s; is_detached = false } in
    let (t, e, a) = trim_all-Without reads.latest ws start f h refl in
    let (c, e', b) =
      trim_missing-Untouched reads.has_kind reads.presence (map workload_uid ws) ok t.current.len 0
        t.current a.tidy (omega (arith, a.tidy.is_slice)) in
    (
      c,
      rw (e, trim_finished_workloads, e', a.attached) refl,
      record { tidy = b.tidy; listed = λ v k. b.actives v k ∙ a.actives v },
    )

-- Where the workloads of three references are missing and none is listed, the loop skips the second,
-- which has moved to the place of the first, and keeps it: it reads the third one twice.
pub trim_missing_skips :
    (reads : Reads) (r p q : Ref)
    → str_eq p.uid q.uid ≡ false
    → ((x : Ref) → reads.has_kind x ≡ true)
    → ((x : Ref) → reads.presence x ≡ missing)
    → trim_finished_workloads reads [] (of_refs (r ∷ p ∷ q ∷ []))
      ≡ some (record { array = p ∷ q ∷ q ∷ []; len = 1 })
unfolding trim_finished_workloads trim_all trim_missing delete_in_place delete_in_array shift_down
    elem
trim_missing_skips reads r p q d k m = simp (k, m, d, str_eq_refl)
