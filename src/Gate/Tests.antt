-- ===== src/Gate/Tests.antt =====
-- A list that is to disable TFJob.
use kubedl.Prelude.{true, none, some, ◌≡◌, refl}
use kubedl.Gate.{split, trim_left, trim_right, flag_of, is_workload_enable}
use kubedl.Gate.Dashes.{names, is_workload_enable-names}

is_workload_enable-names_example :
    is_workload_enable "TFJob" true none (some "PyTorchJob, -TFJob") ""
    ≡ names "TFJob" (split "PyTorchJob, -TFJob")
is_workload_enable-names_example =
    is_workload_enable-names "TFJob" true none "PyTorchJob, -TFJob" (refl, refl) refl

stays_enabled : names "TFJob" (split "PyTorchJob, -TFJob") ≡ true
unfolding split trim_left trim_right flag_of
stays_enabled = refl
