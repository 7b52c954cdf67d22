-- ===== src/Gate.antt =====
-- pkg/util/workloadgate/workload_gate.go: which kinds of workloads are enabled. A text is read as
-- its characters; those that TrimSpace removes are the spaces of ASCII.
pub mod Dashes
mod Tests
use Prim.Native.Char.{Char, code}
use Prim.Native.String.{String}
use kubedl.Prelude.{
  ℕ, Bool, true, false, not, ◌&&◌, ◌||◌, Option, none, some, List, [], ◌∷◌, ◌++◌, ◌==◌, leb, str_eq,
  if◌then◌else◌,
}
use kubedl.Prelude.Map.{lookup, insert, has_key}

abbrev pub cons : Char → String → String
cons = String.◌∷◌

abbrev pub onto_first : Char → List String → List String
onto_first c [] = cons c String.[] ∷ []
onto_first c (s ∷ ss) = cons c s ∷ ss

-- strings.Split at commas.
unfoldable pub split : String → List String
split String.[] = String.[] ∷ []
split (String.◌∷◌ c s) =
    let rest = split s in if code c == b',' then String.[] ∷ rest else onto_first c rest

abbrev pub is_space : Char → Bool
is_space c = code c == 32 || (leb 9 (code c) && leb (code c) 13)

unfoldable pub trim_left : String → String
trim_left String.[] = String.[]
trim_left (String.◌∷◌ c s) = let rest = trim_left s in if is_space c then rest else cons c s

abbrev pub push_trimmed : Char → String → String
push_trimmed c String.[] = if is_space c then String.[] else cons c String.[]
push_trimmed c (String.◌∷◌ d s) = cons c (cons d s)

unfoldable pub trim_right : String → String
trim_right String.[] = String.[]
trim_right (String.◌∷◌ c s) = push_trimmed c (trim_right s)

-- strings.TrimSpace.
abbrev pub trim_space : String → String
trim_space s = trim_left (trim_right s)

-- A name without the `-` in front of it, and whether it enables.
unfoldable pub flag_of : String → String × Bool
flag_of String.[] = (String.[], true)
flag_of (String.◌∷◌ c s) = if code c == b'-' then (s, false) else (cons c s, true)

-- The map of the enabled kinds, and whether all are.
pub record Parsed : Type 0 where
  pub enables : List (String × Bool)
  pub enable_all : Bool

-- One round of the loop.
unfoldable pub parse_one : String → Parsed → Parsed
parse_one workload p =
    let flag = flag_of (trim_space workload) in
    if str_eq flag.0 "*"
    then (if flag.1 then record p { enable_all = true } else p)
    else if str_eq flag.0 ""
    then p
    else record p { enables = insert flag.0 flag.1 p.enables }

unfoldable pub parse_all : List String → Parsed → Parsed
parse_all [] p = p
parse_all (w ∷ ws) p = parse_all ws (parse_one w p)

-- parseWorkloadsEnabled.
unfoldable pub parse_workloads_enabled : String → Parsed
parse_workloads_enabled workloads =
    parse_all (split workloads) (record { enables = []; enable_all = false })

-- workloadCRDInstalled: `resources` are the kinds that the discovery lists, none on an error; without
-- a client for the discovery everything counts as installed.
unfoldable pub lists : String → List String → Bool
lists kind [] = false
lists kind (k ∷ ks) = let rest = lists kind ks in if str_eq k kind then true else rest

unfoldable pub workload_crd_installed : String → Bool → Option (List String) → Bool
workload_crd_installed kind has_client resources =
    if not has_client then true else elim resources [ none ↦ false | some ks ↦ lists kind ks ]

abbrev pub decide : String → Parsed → Bool
decide kind p = if p.enable_all then true else has_key kind p.enables

-- What the environment says, if it says anything, and else what the command line says.
unfoldable pub enabled_by : String → Bool → String → Parsed → Bool
enabled_by kind installed env p =
    if str_eq env ""
    then decide kind p
    else if str_eq env "auto"
    then installed
    else decide kind (parse_workloads_enabled env)

-- IsWorkloadEnable, on the kind of the workload. `workloads` is the flag of the command line, none
-- where the pointer is nil.
unfoldable pub is_workload_enable :
    String → Bool → Option (List String) → Option String → String → Bool
is_workload_enable kind has_client resources none env =
    enabled_by kind (workload_crd_installed kind has_client resources) env
      (record { enables = []; enable_all = false })
is_workload_enable kind has_client resources (some workloads) env =
    if str_eq workloads "auto"
    then workload_crd_installed kind has_client resources
    else enabled_by kind (workload_crd_installed kind has_client resources) env
        (parse_workloads_enabled workloads)
