-- ===== src/Expectations/Satisfied.antt =====
-- When a job's expectations count as satisfied.
use kubedl.Prelude.{String, Bool, true, false, ◌&&◌, ◌||◌, some, List, [], ◌∷◌, ◌≡◌, refl, arith}
use kubedl.Expectations.{
  Store, gen_expectation_pods_key, gen_expectation_services_key, pods_satisfied, services_satisfied,
  satisfy_expectations, delete_all, delete_expectations,
}

-- A test holds of all members, or of some member.
unfoldable pub every : (String → Bool) → List String → Bool
every p [] = true
every p (t ∷ ts) = p t && every p ts

unfoldable pub exists : (String → Bool) → List String → Bool
exists p [] = false
exists p (t ∷ ts) = p t || exists p ts

module _ {E : Type 0} (store : Store E) where
  abbrev pub pods_met : E → String → String → Bool
  pods_met e key t = store.satisfied e (gen_expectation_pods_key key t)

  abbrev pub services_met : E → String → String → Bool
  services_met e key t = store.satisfied e (gen_expectation_services_key key t)

  pods_satisfied-every :
      (e : E) (key : String) (ts : List String) (ok : Bool)
      → pods_satisfied store e key ts ok ≡ (ok && every (pods_met e key) ts)
  unfolding pods_satisfied every
  pods_satisfied-every e key [] ok = ground arith
  pods_satisfied-every e key (t ∷ ts) ok =
      ground (arith, pods_satisfied-every e key ts (ok && pods_met e key t))

  services_satisfied-exists :
      (e : E) (key : String) (ts : List String) (ok : Bool)
      → services_satisfied store e key ts ok ≡ (ok || exists (services_met e key) ts)
  unfolding services_satisfied exists
  services_satisfied-exists e key [] ok = ground arith
  services_satisfied-exists e key (t ∷ ts) ok =
      ground (arith, services_satisfied-exists e key ts (ok || services_met e key t))

  -- SatisfyExpectations of a job that has a key: the expectations of the pods of every replica
  -- type are met, or those of the services of some replica type.
  pub satisfy_expectations-every :
      (e : E) (key : String) (ts : List String)
      → satisfy_expectations store e (some key) ts
        ≡ (every (pods_met e key) ts || exists (services_met e key) ts)
  unfolding satisfy_expectations
  satisfy_expectations-every e key ts =
      rw (pods_satisfied-every e key ts true)
        (services_satisfied-exists e key ts (every (pods_met e key) ts))

  module _ (gone : (e : E) (k : String) → store.satisfied (store.delete_key e k) k ≡ true)
      (kept : (e : E) (j k : String)
        → store.satisfied e k ≡ true
        → store.satisfied (store.delete_key e j) k ≡ true) where
    delete_all_keeps :
        (e : E) (key : String) (ts : List String) (k : String)
        → store.satisfied e k ≡ true
        → store.satisfied (delete_all store e key ts) k ≡ true
    unfolding delete_all
    delete_all_keeps e key [] k h = h
    delete_all_keeps e key (t ∷ ts) k h =
        let p = gen_expectation_pods_key key t in
        let s = gen_expectation_services_key key t in
        let e' = store.delete_key e p in
        delete_all_keeps (store.delete_key e' s) key ts k (kept e' s k (kept e p k h))

    every_deleted :
        (e : E) (key : String) (ts : List String)
        → every (pods_met (delete_all store e key ts) key) ts ≡ true
    unfolding delete_all every
    every_deleted e key [] = refl
    every_deleted e key (t ∷ ts) =
        let p = gen_expectation_pods_key key t in
        let s = gen_expectation_services_key key t in
        let e' = store.delete_key e p in
        let e'' = store.delete_key e' s in
        let own = delete_all_keeps e'' key ts p (kept e' s p (gone e p)) in
        rw (own) (every_deleted e'' key ts)

    -- With a store in which a deleted key is satisfied and a deletion keeps satisfied keys
    -- satisfied: after DeleteExpectations of a job that has a key, SatisfyExpectations holds.
    pub satisfy_expectations-delete :
        (e : E) (key : String) (ts : List String)
        → satisfy_expectations store (delete_expectations store e (some key) ts) (some key) ts
          ≡ true
    unfolding delete_expectations
    satisfy_expectations-delete e key ts = ground (
      arith,
      satisfy_expectations-every (delete_all store e key ts) key ts,
      every_deleted e key ts,
    )
