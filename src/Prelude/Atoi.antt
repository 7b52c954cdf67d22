-- ===== src/Prelude/Atoi.antt =====
-- strconv.Atoi: an optional sign and at least one digit, in the range of int64.
use Prim.Native.Char.{code}
use Prim.Native.String.{String}
use kubedl.Prelude.{
  ℕ, ◌+◌, ◌-◌, ◌*◌, Bool, ◌&&◌, Option, none, some, List, [], ◌∷◌, leb, ◌==◌, if◌then◌else◌,
}
use kubedl.Prelude.Int.{ℤ, pos, negsuc}

abbrev codes : String → List ℕ
codes String.[] = []
codes (String.◌∷◌ c s) = code c ∷ codes s

is_digit : ℕ → Bool
is_digit c = leb b'0' c && leb c b'9'

digits_from : ℕ → List ℕ → Option ℕ
unfolding is_digit
digits_from acc [] = some acc
digits_from acc (c ∷ cs) =
    let rest = digits_from (acc * 10 + (c - b'0')) cs in if is_digit c then rest else none

-- At least one digit.
magnitude : List ℕ → Option ℕ
unfolding digits_from
magnitude [] = none
magnitude (c ∷ cs) = digits_from 0 (c ∷ cs)

abbrev negate : ℕ → ℤ
negate n = if n == 0 then pos 0 else negsuc (n - 1)

abbrev in_range : Option ℕ → ℕ → (ℕ → ℤ) → Option ℤ
in_range none limit f = none
in_range (some n) limit f = if leb n limit then some (f n) else none

signed : List ℕ → Option ℤ
unfolding magnitude
signed [] = none
signed (c ∷ cs) =
    if c == b'-'
    then in_range (magnitude cs) 9223372036854775808 negate
    else if c == b'+'
    then in_range (magnitude cs) 9223372036854775807 pos
    else in_range (magnitude (c ∷ cs)) 9223372036854775807 pos

unfoldable pub atoi : String → Option ℤ
unfolding signed
atoi s = signed (codes s)
