-- ===== src/Services/Tests.antt =====
-- Two workers are expected: the second has no service, and a service of index 3 is left over.
use kubedl.Prelude.{String, false, none, some, List, [], ◌∷◌, ◌≡◌, refl}
use kubedl.Prelude.Text.{to_lower}
use kubedl.Prelude.Map.{lookup}
use kubedl.Prelude.Atoi.{atoi}
use kubedl.Kube.{index_of, replica_type_label, replica_index_label}
use kubedl.Services.{Service, filter_services_for_replica_type, reconcile_services}
use kubedl.Services.Slots.{services_at, any_negative}
use kubedl.Services.Creates.{FillsGaps, reconcile_services-FillsGaps}

abbrev service : String → String → Service
service name index = record {
  name = name;
  labels = (replica_type_label, "worker") ∷ (replica_index_label, index) ∷ [];
  is_deleting = false;
  target_port = some 2222;
}

abbrev two_services : List Service
two_services = service "job-worker-0" "0" ∷ service "job-worker-3" "3" ∷ []

none_negative :
    any_negative (filter_services_for_replica_type two_services (to_lower "Worker")) ≡ false
unfolding any_negative filter_services_for_replica_type to_lower lookup index_of atoi
none_negative = refl

reconcile_services-FillsGaps_example :
    FillsGaps 2
      (λ i. services_at i (filter_services_for_replica_type two_services (to_lower "Worker")))
      (reconcile_services (λ c. false) (λ i. none) two_services "Worker" 2)
reconcile_services-FillsGaps_example =
    reconcile_services-FillsGaps (λ c. false) (λ c. refl) (λ i. none) two_services "Worker" 2
      none_negative
