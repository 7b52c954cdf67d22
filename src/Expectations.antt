-- ===== src/Expectations.antt =====
-- pkg/job_controller/expectations.go: whether the creations and deletions that a job waits for have
-- been observed. The store of the expectations, a library's, is an interface.
pub mod Satisfied
mod Tests
use kubedl.Prelude.{String, Bool, true, false, ◌&&◌, ◌||◌, Option, none, some, List, [], ◌∷◌}
use kubedl.Prelude.Format.{◌<>◌}
use kubedl.Prelude.Text.{to_lower}

-- What the code uses of the store: SatisfiedExpectations and DeleteExpectations of a key.
pub record Store (E : Type 0) : Type 0 where
  pub satisfied : E → String → Bool
  pub delete_key : E → String → E

-- GenExpectationPodsKey.
unfoldable pub gen_expectation_pods_key : String → String → String
gen_expectation_pods_key job_key rtype = job_key <> "/" <> to_lower rtype <> "/pods"

-- GenExpectationServicesKey.
unfoldable pub gen_expectation_services_key : String → String → String
gen_expectation_services_key job_key rtype = job_key <> "/" <> to_lower rtype <> "/services"

module _ {E : Type 0} (store : Store E) where
  -- The loop over the keys of the pods.
  unfoldable pub pods_satisfied : E → String → List String → Bool → Bool
  pods_satisfied e key [] ok = ok
  pods_satisfied e key (t ∷ ts) ok =
      pods_satisfied e key ts (ok && store.satisfied e (gen_expectation_pods_key key t))

  -- The loop over the keys of the services.
  unfoldable pub services_satisfied : E → String → List String → Bool → Bool
  services_satisfied e key [] ok = ok
  services_satisfied e key (t ∷ ts) ok =
      services_satisfied e key ts (ok || store.satisfied e (gen_expectation_services_key key t))

  -- SatisfyExpectations, on the replica types of the specifications. The job has no key when
  -- KeyFunc returns an error.
  unfoldable pub satisfy_expectations : E → Option String → List String → Bool
  satisfy_expectations e none ts = false
  satisfy_expectations e (some key) ts = services_satisfied e key ts (pods_satisfied e key ts true)

  -- The loop of DeleteExpectations.
  unfoldable pub delete_all : E → String → List String → E
  delete_all e key [] = e
  delete_all e key (t ∷ ts) =
      let e' = store.delete_key e (gen_expectation_pods_key key t) in
      delete_all (store.delete_key e' (gen_expectation_services_key key t)) key ts

  -- DeleteExpectations.
  unfoldable pub delete_expectations : E → Option String → List String → E
  delete_expectations e none ts = e
  delete_expectations e (some key) ts = delete_all e key ts
