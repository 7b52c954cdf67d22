-- ===== src/Prelude/Lists.antt =====
-- Lists measured by native numbers, under the library's names, and maps as association lists.
use Prim.Native.Nat.{ℕ, suc, ◌+◌}
use mathlib.Core.Path.{◌≡◌}
use mathlib.Core.List.{List, [], ◌∷◌, ◌++◌}
use native.Mathlib.Omega.{arith}
use Prim.Native.String.{String}
use mathlib.Core.Bool.{Bool, true, false}
use kubedl.Prelude.Tests.{str_eq, if◌then◌else◌}

module _ {ℓ} {A : Type ℓ} where
  abbrev pub length : List A → ℕ
  length [] = 0
  length (x ∷ xs) = suc (length xs)

  pub length-append : (xs ys : List A) → length (xs ++ ys) ≡ length xs + length ys
  length-append [] ys = omega arith
  length-append (x ∷ xs) ys = omega (arith, length-append xs ys)

-- Whether a text is in a list, and whether a list has no text twice.
unfoldable pub elem : String → List String → Bool
elem t [] = false
elem t (u ∷ us) = let rest = elem t us in if str_eq u t then true else rest

pub data Distinct : List String → Type 0 where
  empty : Distinct []
  extend : {t : String} {ts : List String} → elem t ts ≡ false → Distinct ts → Distinct (t ∷ ts)
