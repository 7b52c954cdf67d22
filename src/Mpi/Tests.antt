-- ===== src/Mpi/Tests.antt =====
-- Processing units, and a file of hosts.
use kubedl.Prelude.{true, some, ◌≡◌, refl, arith, ◌/◌, ◌==◌, if◌then◌else◌}
use kubedl.Prelude.Format.{decimal, decimal_on, digit}
use kubedl.Mpi.{
  is_disjoint, bit_and_on, quot_ℤ, units, rejected, split_units, worker_lines, hostfile, intel_mpi,
}
use kubedl.Prelude.Int.{pos, negsuc}
use kubedl.Mpi.Multiples.{digit_at, power, split_units-power}

nine : split_units (pos 9) (pos 4) ≡ units (pos 2) (pos 4)
unfolding split_units is_disjoint bit_and_on quot_ℤ
nine = refl

eight : split_units (pos 8) (pos 8) ≡ rejected
unfolding split_units is_disjoint bit_and_on
eight = refl

-- Three units with -4 on a node.
no_worker : split_units (pos 3) (negsuc 3) ≡ units (pos 0) (negsuc 3)
unfolding split_units is_disjoint bit_and_on quot_ℤ
no_worker = refl

hosts :
    hostfile true (some intel_mpi) "pi" (some 2) 2
    ≡ "pi-launcher-0 slots=2\npi-worker-0:2\npi-worker-1:2\n"
unfolding hostfile worker_lines decimal decimal_on digit
hosts = refl

split_units-power_example :
    split_units (pos 16) (pos (power 3))
    ≡ (if digit_at 3 16 == 0 then units (pos (16 / power 3)) (pos (power 3)) else rejected)
split_units-power_example = split_units-power 3 16 (omega arith) (omega arith)
