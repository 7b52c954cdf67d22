-- ===== src/Mpi/Multiples.antt =====
-- What the conversion of processing units accepts.
use kubedl.Prelude.{
  ℕ, zero, suc, ◌*◌, ◌/◌, ◌%◌, ◌≤◌, ◌<◌, false, ◌≡◌, refl, arith, ◌==◌, if◌then◌else◌, Bool-cases,
  inl, inr, ◌⊎◌,
}
use kubedl.Prelude.Int.{pos, ltb_ℤ}
use kubedl.Mpi.{bit_and_on, is_disjoint, quot_ℤ, units, rejected, split_units}

-- The binary digit of a number at a place.
abbrev pub digit_at : ℕ → ℕ → ℕ
digit_at zero n = n % 2
digit_at (suc k) n = digit_at k (n / 2)

abbrev pub power : ℕ → ℕ
power zero = 1
power (suc k) = 2 * power k

digit_at-cases : (k n : ℕ) → (digit_at k n ≡ 0) ⊎ (digit_at k n ≡ 1)
digit_at-cases zero n = elim (Bool-cases (n % 2 == 0)) [
  | inl e ↦ inl (ground arith)
  | inr e ↦ inr (ground arith)
]
digit_at-cases (suc k) n = digit_at-cases k (n / 2)

bit_and_on-zero : (width a : ℕ) → bit_and_on width a 0 ≡ 0
unfolding bit_and_on
bit_and_on-zero zero a = refl
bit_and_on-zero (suc width) a = let rest = bit_and_on-zero width (a / 2) in ground (arith, rest)

bit_and_on-power :
    (width k a : ℕ) → k < width → bit_and_on width a (power k) ≡ digit_at k a * power k
unfolding bit_and_on
bit_and_on-power zero k a h = absurd (omega arith)
bit_and_on-power (suc width) zero a h =
    let rest = bit_and_on-zero width (a / 2) in ground (arith, rest)
bit_and_on-power (suc width) (suc k) a h =
    let rest = bit_and_on-power width k (a / 2) (omega arith) in
    let half : power (suc k) / 2 ≡ power k = omega arith in
    let even : power (suc k) % 2 ≡ 0 = omega arith in
    rw (even, half, rest)
      (elim (digit_at-cases k (a / 2)) [
        | inl e ↦ rw (e) (ground arith)
        | inr e ↦ rw (e) (ground arith)
      ])

power-positive : (k : ℕ) → 1 ≤ power k
power-positive zero = omega arith
power-positive (suc k) = omega (arith, power-positive k)

power_bits-is_disjoint :
    (k a : ℕ) → k < 31 → is_disjoint (pos a) (pos (power k)) ≡ (digit_at k a == 0)
unfolding is_disjoint
power_bits-is_disjoint k a h =
    let one = power-positive k in
    rw (bit_and_on-power 32 k a (omega arith)) (elim (digit_at-cases k a) [
      | inl e ↦ rw (e) (ground arith)
      | inr e ↦ rw (e) (ground (arith, one))
    ])

-- Where there are 2 ^ k units on a node, with k below 31, and at least as many in total, a conversion
-- is accepted exactly when the binary digit of the total at the place k is 0: it then takes as many
-- workers as the quotient, each with the units of a node; it is rejected where the digit is 1.
pub split_units-power :
    (k total : ℕ)
    → k < 31
    → power k ≤ total
    → split_units (pos total) (pos (power k))
      ≡ (if digit_at k total == 0 then units (pos (total / power k)) (pos (power k)) else rejected)
unfolding split_units quot_ℤ
split_units-power k total h b =
    let one = power-positive k in
    let enough : ltb_ℤ (pos total) (pos (power k)) ≡ false = ground arith in
    let some_units : (power k == 0) ≡ false = ground arith in
    rw (enough, power_bits-is_disjoint k total h, some_units) refl
