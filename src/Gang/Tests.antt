-- ===== src/Gang/Tests.antt =====
-- A job with an AIMaster and two roles.
use kubedl.Prelude.{none, [], ◌∷◌, ◌≡◌, refl}
use kubedl.Prelude.Map.{lookup, has_key}
use kubedl.Api.{never}
use kubedl.Gang.{Specs, generate_gang_by_job_unit, generate_gang_by_role_unit}
use kubedl.Gang.Members.{members, AreDistinct, but_ai_master, generate_gang-members}

abbrev specs : Specs
specs =
    ("AIMaster", record { replicas = 1; spot = none; restart_policy = never; depend_on = [] })
    ∷ ("PS", record { replicas = 2; spot = none; restart_policy = never; depend_on = [] })
    ∷ ("Worker", record { replicas = 4; spot = none; restart_policy = never; depend_on = [] })
    ∷ []

distinct : AreDistinct specs
unfolding has_key lookup
distinct = (refl, (refl, (refl, tt)))

generate_gang-members_example :
    (members (generate_gang_by_role_unit "mnist" specs) ≡ but_ai_master specs)
    × (members (generate_gang_by_job_unit "mnist" specs none) ≡ but_ai_master specs)
generate_gang-members_example = generate_gang-members "mnist" specs distinct
