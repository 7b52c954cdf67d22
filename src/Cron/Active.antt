-- ===== src/Cron/Active.antt =====
-- The list of the active workloads.
use kubedl.Prelude.{
  String, false, List, [], ◌∷◌, str_eq, str_eq_iff, ◌≡◌, refl, sym, arith, elem, Distinct, empty,
  extend, if_rule, if◌then◌else◌,
}
use kubedl.Cron.{in_active_list, delete_from_active_list}

in_active_list-elem : (us : List String) → (u : String) → in_active_list us u ≡ elem u us
unfolding in_active_list elem
in_active_list-elem [] u = refl
in_active_list-elem (w ∷ us) u = ground (arith, in_active_list-elem us u)

delete_other :
    (us : List String)
    → (u v : String) → str_eq u v ≡ false
    → in_active_list (delete_from_active_list us u) v ≡ in_active_list us v
unfolding in_active_list delete_from_active_list
delete_other [] u v h = refl
delete_other (w ∷ us) u v h =
    ground (arith, delete_other us u v h, str_eq_iff u v, str_eq_iff w u, str_eq_iff w v)

delete_gone :
    {us : List String}
    → Distinct us
    → (u : String) → in_active_list (delete_from_active_list us u) u ≡ false
unfolding in_active_list delete_from_active_list
delete_gone empty u = refl
delete_gone (extend {t = w} {ts = us} fresh d) u =
    ground (arith, delete_gone d u, in_active_list-elem us u, str_eq_iff w u, fresh)

-- When a uid is taken out of a list of different active workloads, that uid is no longer active,
-- and every other uid is active exactly if it was.
pub in_active_list-delete :
    (us : List String)
    → Distinct us
    → (u v : String)
    → in_active_list (delete_from_active_list us u) v
      ≡ (if str_eq u v then false else in_active_list us v)
in_active_list-delete us d u v =
    if_rule (λ r. in_active_list (delete_from_active_list us u) v ≡ r) (str_eq u v)
      (λ h. rw (sym ((str_eq_iff u v).0 h)) (delete_gone d u)) (λ h. delete_other us u v h)
