-- ===== src/Rollup/Xdl/Minimum.antt =====
-- How many workers of an XDLJob have to succeed.
use kubedl.Prelude.{
  ℕ, ◌*◌, ◌%◌, Bool, true, Option, none, some, ◌≡◌, refl, arith, ltb, leb,
}
use kubedl.Rollup.Xdl.{to_int32, ceil_hundredth, calculate_min_finish, reaches}

-- The product of the workers and the percentage is an int32.
abbrev pub Fits : Option ℕ → ℕ → Type 0
Fits none workers = Unit {0}
Fits (some percentage) workers = ltb (workers * percentage) 2147483648 ≡ true

-- Whether the succeeded workers suffice: they are at least the percentage of all workers, or the
-- number where there is no percentage, or all of them where there is neither.
abbrev pub suffices : Option ℕ → Option ℕ → ℕ → ℕ → Bool
suffices (some percentage) number workers done = leb (workers * percentage) (100 * done)
suffices none (some number) workers done = leb number done
suffices none none workers done = leb workers done

reaches-ceil_hundredth :
    (m done : ℕ)
    → ltb m 2147483648 ≡ true
    → reaches done (ceil_hundredth (to_int32 m)) ≡ leb m (100 * done)
unfolding to_int32 ceil_hundredth
reaches-ceil_hundredth m done h =
    let small : m % 4294967296 ≡ m = ground arith in rw (small, h) (ground arith)

pub reaches-suffices :
    (percentage number : Option ℕ) (workers done : ℕ)
    → Fits percentage workers
    → reaches done (calculate_min_finish percentage number workers)
      ≡ suffices percentage number workers done
unfolding calculate_min_finish
reaches-suffices (some percentage) number workers done h =
    reaches-ceil_hundredth (workers * percentage) done h
reaches-suffices none (some number) workers done h = refl
reaches-suffices none none workers done h = refl
