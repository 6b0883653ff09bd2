-- ===== src/Base/Decimal.antt =====
-- `std::to_string` and `<<` of the signed integers: their decimal text.
use Prim.Native.Nat.{ℕ, zero, suc, ◌+◌, ◌/◌, ◌%◌}
use mathlib.Core.List.{[], ◌∷◌, ◌++◌}
use py_capio.Base.Tests.{ltb, if◌then◌else◌}
use py_capio.Base.Lists.{Bytes}
use py_capio.Base.Int.{ℤ, pos, negsuc}

-- The decimal digits of `n`; one unit of fuel for each is enough, and `n + 1` units are.
unfoldable pub digits : ℕ → ℕ → Bytes
digits zero n = []
digits (suc fuel) n =
    let front = digits fuel (n / 10) in
    if ltb n 10 then (b'0' + n) ∷ [] else front ++ ((b'0' + n % 10) ∷ [])

-- `std::to_string(long)`
unfoldable pub to_string : ℤ → Bytes
unfolding digits
to_string (pos n) = digits (suc n) n
to_string (negsuc n) = b'-' ∷ digits (suc (suc n)) (suc n)
