-- ===== src/Expectations/Tests.antt =====
-- A store that counts what is still expected under each key.
use kubedl.Prelude.{
  ℕ, String, Bool, true, false, ◌||◌, Option, none, some, List, [], ◌∷◌, ◌==◌, ◌≡◌, refl, str_eq,
  str_eq_refl, if◌then◌else◌,
}
use kubedl.Prelude.Map.{lookup, delete, lookup-delete}
use kubedl.Expectations.{Store, satisfy_expectations}
use kubedl.Expectations.Satisfied.{
  every, exists, pods_met, services_met, satisfy_expectations-every,
}

abbrev met : Option ℕ → Bool
met none = true
met (some n) = n == 0

abbrev counters : Store (List (String × ℕ))
counters = record { satisfied = λ e k. met (lookup k e); delete_key = λ e k. delete k e }

counters_gone :
    (e : List (String × ℕ)) (k : String) → counters.satisfied (counters.delete_key e k) k ≡ true
counters_gone e k = rw (lookup-delete k k e, str_eq_refl k) refl

counters_kept :
    (e : List (String × ℕ)) (j k : String)
    → counters.satisfied e k ≡ true
    → counters.satisfied (counters.delete_key e j) k ≡ true
counters_kept e j k h = rw (lookup-delete j k e) (after (str_eq j k))
  where
    after : (b : Bool) → met (if b then none else lookup k e) ≡ true
    after true = refl
    after false = h

abbrev expected : List (String × ℕ)
expected = ("ns/job/worker/pods", 1) ∷ ("ns/job/worker/services", 0) ∷ []

satisfy_expectations-every_example :
    satisfy_expectations counters expected (some "ns/job") ("Worker" ∷ "PS" ∷ []) ≡ (
      every (pods_met counters expected "ns/job") ("Worker" ∷ "PS" ∷ [])
      || exists (services_met counters expected "ns/job") ("Worker" ∷ "PS" ∷ []))
satisfy_expectations-every_example =
    satisfy_expectations-every counters expected "ns/job" ("Worker" ∷ "PS" ∷ [])
