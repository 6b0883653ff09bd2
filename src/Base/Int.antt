-- ===== src/Base/Int.antt =====
-- Signed machine integers (`int`, `long`, `ssize_t`), and their conversion to `size_t`.
use Prim.Native.Nat.{ℕ, zero, suc, ◌+◌, ◌-◌, ◌%◌, ◌^◌}
use mathlib.Core.Bool.{Bool, true, false}
use py_capio.Base.Tests.{ltb, if◌then◌else◌, ◌==◌}

-- `negsuc n` is -(n + 1).
pub data ℤ : Type 0 where
  pos : ℕ → ℤ
  negsuc : ℕ → ℤ

abbrev pub eq_ℤ : ℤ → ℤ → Bool
eq_ℤ (pos a) (pos b) = a == b
eq_ℤ (pos a) (negsuc b) = false
eq_ℤ (negsuc a) (pos b) = false
eq_ℤ (negsuc a) (negsuc b) = a == b

-- `z < 0`, `z > 0`
abbrev pub is_negative : ℤ → Bool
is_negative (pos a) = false
is_negative (negsuc a) = true

abbrev pub is_positive : ℤ → Bool
is_positive (pos zero) = false
is_positive (pos (suc a)) = true
is_positive (negsuc a) = false

abbrev pub size_mod : ℕ
size_mod = 2 ^ 64

-- `static_cast<size_t>(z)`
abbrev pub to_size : ℤ → ℕ
to_size (pos n) = n % size_mod
to_size (negsuc n) = (size_mod - 1 - n % size_mod) % size_mod

-- `n += z` for a `size_t` n and a signed z: modulo 2^64.
abbrev pub add_size : ℕ → ℤ → ℕ
add_size n z = (n + to_size z) % size_mod

-- `static_cast<int>(z)` of a `long`: the low 32 bits, read as a two's complement number.
abbrev pub to_int : ℤ → ℤ
to_int z =
    let low : ℕ = to_size z % 2 ^ 32 in
    if ltb low (2 ^ 31) then pos low else negsuc (2 ^ 32 - 1 - low)
