-- ===== src/Base/CppString.antt =====
-- The operations of `std::string` that the code calls, over byte strings.
use Prim.Native.Nat.{ℕ, zero, suc, ◌-◌, ◌^◌, ◌≤◌}
use mathlib.Core.Path.{◌≡◌, refl}
use mathlib.Core.Option
use mathlib.Core.Option.{Option, none, some}
use mathlib.Core.List.{[], ◌∷◌, ◌++◌, append-nil}
use native.Mathlib.Omega.{arith}
use py_capio.Base.Tests.{ltb, leb, ◌==◌, if◌then◌else◌}
use py_capio.Base.Lists.{Bytes, length, take, drop, replicate, length-append, take-append, take_all}
use py_capio.Base.Exceptions.{Outcome, ok, raised, length_error}

-- `s.find(c)`, where `none` is `npos`.
unfoldable pub find : ℕ → Bytes → Option ℕ
find c [] = none
find c (x ∷ s) = if x == c then some 0 else Option.map suc (find c s)

-- `s.c_str()`, as a C function reads it: up to the first NUL.
unfoldable pub c_str : Bytes → Bytes
c_str [] = []
c_str (c ∷ s) = let rest = c_str s in if c == 0 then [] else c ∷ rest

-- The string that a successful `s.resize(n)` leaves: cut, or filled up with NUL.
unfoldable pub resized : ℕ → Bytes → Bytes
resized n s = if leb n (length s) then take n s else s ++ replicate (n - length s) 0

-- `s.max_size()` of a 64-bit libstdc++.
abbrev pub max_size : ℕ
max_size = 2 ^ 62 - 1

-- `s.resize(n)`
unfoldable pub resize : ℕ → Bytes → Outcome Bytes
unfolding resized
resize n s = if ltb max_size n then raised length_error else ok (resized n s)

-- A buffer after a call has stored bytes at its start.
unfoldable pub overwrite : Bytes → Bytes → Bytes
overwrite stored buf = stored ++ drop (length stored) buf

pub resized_same : (s : Bytes) → resized (length s) s ≡ s
unfolding resized
resized_same s = ground (arith, take_all (length s) s)

pub resize_cut : (n : ℕ) (s : Bytes) → n ≤ length s → n ≤ max_size → resize n s ≡ ok (take n s)
unfolding resize
resize_cut n s h fits = ground arith

replicate_none : (n : ℕ) → n ≡ 0 → replicate {A = ℕ} n 0 ≡ []
replicate_none zero h = refl
replicate_none (suc n) h = absurd (omega arith)

pub resize_fill :
    (n : ℕ) (s : Bytes)
    → length s ≤ n
    → n ≤ max_size
    → resize n s ≡ ok (s ++ replicate (n - length s) 0)
unfolding resize
resize_fill n s h fits = ground (arith, take_all n s, append-nil s, replicate_none (n - length s))

pub resize_same : (s : Bytes) → length s ≤ max_size → resize (length s) s ≡ ok s
unfolding resize
resize_same s h = ground (arith, take_all (length s) s)

-- Cutting a filled buffer to what was stored gives what was stored.
pub resized-overwrite : (s buf : Bytes) → resized (length s) (overwrite s buf) ≡ s
unfolding resized overwrite
resized-overwrite s buf =
    ground (arith, take-append s (drop (length s) buf), length-append s (drop (length s) buf))
