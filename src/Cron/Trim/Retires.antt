-- ===== src/Cron/Trim/Retires.antt =====
-- Workloads that have finished leave the active list.
use kubedl.Prelude.{
  String, Bool, false, ◌&&◌, ◌||◌, Option, some, List, [], ◌∷◌, ◌≡◌, refl, sym, ap, ◌∙◌, arith, map,
  elem, str_eq, str_eq_iff, if◌then◌else◌, Distinct, empty, extend, Bool-cases, inl, inr, if_rule,
}
use kubedl.Cron.{in_active_list, delete_from_active_list}
use kubedl.Cron.Active.{in_active_list-delete}
use kubedl.Cron.Trim.{
  Ref, Workload, Slice, Trim, is_finished, double_check, trim_one, trim_all, delete_in_place, uids,
  uid_of,
}
use kubedl.Cron.Trim.InPlace.{IsSlice, delete_in_place-IsSlice, uids-delete_in_place}

elem-delete :
    (us : List String) (u v : String)
    → elem v us ≡ false
    → elem v (delete_from_active_list us u) ≡ false
unfolding elem delete_from_active_list
elem-delete [] u v h = refl
elem-delete (w ∷ us) u v h = ground (arith, elem-delete us u v)

delete-Distinct :
    {us : List String} → (u : String) → Distinct us → Distinct (delete_from_active_list us u)
unfolding delete_from_active_list
delete-Distinct u empty = empty
delete-Distinct u (extend {t = w} {ts = us} fresh d) =
    if_rule Distinct (str_eq w u) (λ e. d)
      (λ e. extend (elem-delete us u w fresh) (delete-Distinct u d))

-- The slice is well formed, and has no uid twice.
pub record IsTidy (s : Slice) : Type 0 where
  pub is_slice : IsSlice s
  pub distinct : Distinct (uids s)

pub delete-IsTidy : (u : String) (s : Slice) → IsTidy s → IsTidy (delete_in_place u s)
delete-IsTidy u s h = record {
  is_slice = delete_in_place-IsSlice u s h.is_slice;
  distinct = rw (uids-delete_in_place u s h.is_slice) (delete-Distinct u h.distinct);
}

-- Whether a uid is active.
abbrev pub active : Slice → String → Bool
active s v = in_active_list (uids s) v

pub active-delete :
    (u v : String) (s : Slice)
    → IsTidy s
    → active (delete_in_place u s) v ≡ (if str_eq u v then false else active s v)
active-delete u v s h =
    ap (λ us. in_active_list us v) (uids-delete_in_place u s h.is_slice)
    ∙ in_active_list-delete (uids s) h.distinct u v

-- Whether a listed workload with the uid has finished.
unfoldable pub retired : List Workload → String → Bool
retired [] v = false
retired (w ∷ ws) v = (str_eq w.uid v && is_finished w.status) || retired ws v

-- The caller's list, without the uids that `gone` names.
pub record Without (gone : String → Bool) (s : Slice) (t : Trim) : Type 0 where
  pub attached : t.is_detached ≡ false
  pub tidy : IsTidy t.current
  pub actives : (v : String) → active t.current v ≡ (if gone v then false else active s v)

-- The list that is read again does not have the workload either.
abbrev pub IsForgotten : Workload → Option (List Ref) → Type 0
IsForgotten w latest =
    (rs : List Ref) × (latest ≡ some rs) × (in_active_list (map uid_of rs) w.uid ≡ false)

same_actives :
    (w : Workload) (s : Slice) (v : String)
    → (is_finished w.status && active s w.uid) ≡ false
    → active s v ≡ (if str_eq w.uid v && is_finished w.status then false else active s v)
same_actives w s v h = elim (Bool-cases (str_eq w.uid v)) [
  | inl e ↦ rw (e, sym ((str_eq_iff w.uid v).0 e)) (ground arith)
  | inr e ↦ rw e refl
]

trim_one-Without :
    (latest : Option (List Ref)) (w : Workload) (t : Trim)
    → IsForgotten w latest
    → IsTidy t.current
    → t.is_detached ≡ false
    → (t' : Trim) × (trim_one latest w t ≡ some t')
      × Without (λ v. str_eq w.uid v && is_finished w.status) t.current t'
unfolding trim_one double_check
trim_one-Without latest w t (rs, e, f) h d =
    let same : (is_finished w.status && active t.current w.uid) ≡ false
        → Without (λ v. str_eq w.uid v && is_finished w.status) t.current t =
      λ k. record { attached = d; tidy = h; actives = λ v. same_actives w t.current v k } in
    elim (Bool-cases (active t.current w.uid)) [
      | inl a ↦ elim (Bool-cases (is_finished w.status)) [
        | inl b ↦ (
          record t { current = delete_in_place w.uid t.current },
          rw (a, b) refl,
          record {
            attached = d;
            tidy = delete-IsTidy w.uid t.current h;
            actives = λ v. rw (b) (ground (arith, active-delete w.uid v t.current h));
          },
        )
        | inr b ↦ (t, rw (a, b) refl, same (ground arith))
      ]
      | inr a ↦ elim (Bool-cases (is_finished w.status)) [
        | inl b ↦ (t, rw (a, b) refl, same (ground arith))
        | inr b ↦ (t, rw (a, b, e, f) refl, same (ground arith))
      ]
    ]

Without-trans :
    {f g : String → Bool} {s : Slice} {t u : Trim}
    → Without f s t
    → Without g t.current u
    → Without (λ v. f v || g v) s u
Without-trans a b = record {
  attached = b.attached;
  tidy = b.tidy;
  actives = λ v. ground (arith, a.actives v, b.actives v);
}

pub trim_all-Without :
    (latest : Workload → Option (List Ref)) (ws : List Workload) (t : Trim)
    → ((w : Workload) → IsForgotten w (latest w))
    → IsTidy t.current
    → t.is_detached ≡ false
    → (t' : Trim) × (trim_all latest ws t ≡ some t') × Without (retired ws) t.current t'
unfolding trim_all retired
trim_all-Without latest [] t f h d =
    (t, refl, record { attached = d; tidy = h; actives = λ v. refl })
trim_all-Without latest (w ∷ ws) t f h d =
    let (t', e, a) = trim_one-Without (latest w) w t (f w) h d in
    let (t'', e', b) = trim_all-Without latest ws t' f a.tidy a.attached in
    (t'', rw (e, trim_all) e', Without-trans a b)
