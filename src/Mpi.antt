-- ===== src/Mpi.antt =====
-- controllers/mpi/legacy.go and mpi_config.go: the fields of older versions of MPIJobs, and the file
-- of the hosts, where the counts are taken as not negative.
pub mod Multiples
mod Tests
use kubedl.Prelude.{
  ℕ, zero, suc, ◌+◌, ◌-◌, ◌*◌, ◌/◌, ◌%◌, String, Bool, true, false, not, ◌&&◌, ◌||◌, Option, none,
  some, List, [], ◌∷◌, ◌==◌, ltb, str_eq, is_some, if◌then◌else◌,
}
use kubedl.Prelude.Int.{ℤ, pos, negsuc, ltb_ℤ, sub_ℕ, is_zero}
use kubedl.Prelude.Map.{lookup, insert}
use kubedl.Prelude.Format.{◌<>◌, decimal}
use kubedl.Api.{CleanPodPolicy}
use kubedl.Rollup.Xdl.{to_int32}

-- The bitwise and of the `width` lowest binary digits.
unfoldable pub bit_and_on : ℕ → ℕ → ℕ → ℕ
bit_and_on zero a b = 0
bit_and_on (suc width) a b =
    (if a % 2 == 1 && b % 2 == 1 then 1 else 0) + 2 * bit_and_on width (a / 2) (b / 2)

-- The bits of an int32, in two's complement.
abbrev pub bits_of : ℤ → ℕ
bits_of (pos n) = n
bits_of (negsuc n) = 4294967295 - n

-- Whether the bitwise and of two int32 is 0.
unfoldable pub is_disjoint : ℤ → ℤ → Bool
is_disjoint a b = bit_and_on 32 (bits_of a) (bits_of b) == 0

-- The division of integers, which rounds towards 0.
unfoldable pub quot_ℤ : ℤ → ℤ → ℤ
quot_ℤ (pos a) (pos b) = pos (a / b)
quot_ℤ (pos a) (negsuc b) = sub_ℕ 0 (a / (b + 1))
quot_ℤ (negsuc a) (pos b) = sub_ℕ 0 ((a + 1) / b)
quot_ℤ (negsuc a) (negsuc b) = pos ((a + 1) / (b + 1))

-- A pod template, with the limits of each container by the name of the resource.
pub record Template : Type 0 where
  pub limits : List (List (String × ℕ))

-- LegacyV1Alpha1.
pub record LegacyFields : Type 0 where
  pub deprecated_gpus : Option ℤ
  pub gpus_per_node : Option ℤ
  pub processing_units : Option ℤ
  pub processing_units_per_node : Option ℤ
  pub processing_resource_type : String
  pub replicas : Option ℤ
  pub template : Template

-- The workers and the units of each, an error, or a division by zero.
pub data Units : Type 0 where
  units : ℤ → ℤ → Units
  rejected : Units
  panics : Units

abbrev pub or_one : Option ℤ → ℤ
or_one none = pos 1
or_one (some n) = n

-- A total of units, and how many there are on a node.
unfoldable pub split_units : ℤ → ℤ → Units
split_units total per_node =
    if ltb_ℤ total per_node
    then units (pos 1) total
    else if is_disjoint total per_node
    then (if is_zero per_node then panics else units (quot_ℤ total per_node) per_node)
    else rejected

abbrev pub or_zero : Option ℕ → ℕ
or_zero none = 0
or_zero (some n) = n

-- The units of a worker by the limits of the first container of the template, cut to an int32.
abbrev pub limit_units : LegacyFields → List (String × ℕ) → ℤ
limit_units l limits =
    if str_eq l.processing_resource_type ""
    then pos 0
    else to_int32 (or_zero (lookup l.processing_resource_type limits))

abbrev pub replica_units : LegacyFields → Option ℤ → List (List (String × ℕ)) → Units
replica_units l none cs = units (pos 0) (pos 0)
replica_units l (some n) [] = units (pos 0) (pos 0)
replica_units l (some n) (c ∷ cs) = units n (limit_units l c)

abbrev pub units_by : LegacyFields → Option ℤ → Option ℤ → Units
units_by l none none = replica_units l l.replicas l.template.limits
units_by l (some g) none = split_units g (or_one l.gpus_per_node)
units_by l none (some u) = split_units u (or_one l.processing_units_per_node)
units_by l (some g) (some u) = rejected

-- processingUnitsPerWorker.
unfoldable pub processing_units_per_worker : LegacyFields → Units
processing_units_per_worker l = units_by l l.deprecated_gpus l.processing_units

-- A replica specification, as far as the legacy fields fill it in; a missing number is nil.
pub record MpiReplica : Type 0 where
  pub replicas : Option ℤ
  pub template : Template

-- `clean_pod_policy` is the one of the run policy of the job, and `legacy_policy` the one of the run
-- policy within the legacy fields, to which there is a pointer.
pub record MpiJob : Type 0 where
  pub has_legacy : Bool
  pub legacy_policy : Option (Option CleanPodPolicy)
  pub legacy : Option LegacyFields
  pub clean_pod_policy : Option CleanPodPolicy
  pub slots_per_worker : Option ℤ
  pub specs : List (String × MpiReplica)

pub data Converted : Type 0 where
  converted : MpiJob → Converted
  refused : Converted
  crashed : Converted

abbrev pub is_positive : ℤ → Bool
is_positive (pos n) = ltb 0 n
is_positive (negsuc n) = false

abbrev pub with_slots : ℤ → Option ℤ → Option ℤ
with_slots n (some s) = some s
with_slots n none = if is_positive n then some n else none

abbrev pub has_replicas : Option MpiReplica → Bool
has_replicas none = false
has_replicas (some r) = is_some r.replicas

abbrev pub set_worker :
    LegacyFields → ℤ → Option MpiReplica → List (String × MpiReplica) → List (String × MpiReplica)
set_worker l n spec m =
    if not (has_replicas spec) && is_positive n
    then insert "Worker" (record { replicas = some n; template = l.template }) m
    else m

abbrev pub set_launcher :
    LegacyFields → Option MpiReplica → List (String × MpiReplica) → List (String × MpiReplica)
set_launcher l none m =
    insert "Launcher" (record { replicas = some (pos 1); template = l.template }) m
set_launcher l (some r) m = m

abbrev pub with_units : MpiJob → LegacyFields → Units → Converted
with_units j l rejected = refused
with_units j l panics = crashed
with_units j l (units workers n) =
    let m = set_worker l workers (lookup "Worker" j.specs) j.specs in
    converted (record j {
      slots_per_worker = with_slots n j.slots_per_worker;
      specs = set_launcher l (lookup "Launcher" m) m;
    })

abbrev pub with_fields : MpiJob → Option LegacyFields → Converted
with_fields j none = converted j
with_fields j (some l) = with_units j l (processing_units_per_worker l)

abbrev pub with_policy : MpiJob → Option CleanPodPolicy → MpiJob
with_policy j none = j
with_policy j (some p) = record j { clean_pod_policy = some p }

-- The run policy within the legacy fields is read without a test.
abbrev pub with_legacy : MpiJob → Option (Option CleanPodPolicy) → Converted
with_legacy j none = crashed
with_legacy j (some p) = with_fields (with_policy j p) j.legacy

-- LegacyMPIJobToV1MPIJob.
unfoldable pub legacy_to_v1 : MpiJob → Converted
legacy_to_v1 j = if not j.has_legacy then converted j else with_legacy j j.legacy_policy

-- The MPI distributions whose file of hosts has another form, and any other.
pub data Distribution : Type 0 where
  open_mpi intel_mpi mpich : Distribution

abbrev pub slots_text : Option Distribution → String
slots_text (some intel_mpi) = ":"
slots_text (some mpich) = ":"
slots_text _ = " slots="

-- The lines for the workers from `i` on.
unfoldable pub worker_lines : Option Distribution → String → ℕ → ℕ → ℕ → String
worker_lines d name slots i zero = ""
worker_lines d name slots i (suc n) =
    name
    <> "-worker-"
    <> decimal i
    <> slots_text d
    <> decimal slots
    <> "\n"
    <> worker_lines d name slots (i + 1) n

abbrev pub slots_or_one : Option ℕ → ℕ
slots_or_one none = 1
slots_or_one (some n) = n

-- The file of the hosts that newJobConfigMap makes.
unfoldable pub hostfile : Bool → Option Distribution → String → Option ℕ → ℕ → String
hostfile launcher_runs d name slots workers =
    (if launcher_runs
      then name <> "-launcher-0 slots=" <> decimal (slots_or_one slots) <> "\n"
      else "")
    <> worker_lines d name (slots_or_one slots) 0 workers
