-- ===== src/Proxies/Flags.antt =====
-- The flags of `open_proxy` and the routes of the proxies (pycapio/__init__.py).
use Prim.Native.Nat.{bit_and}
use py_capio.Base.{
  ℕ, ◌≡◌, refl, Bytes, Bool, true, false, ◌||◌, some, [], ◌∷◌, ◌++◌, codes, is_empty, if◌then◌else◌,
  arith,
}
use py_capio.FsPath.{contains}
use py_capio.Proxies.{
  capio, starts_with, occurs, proxy_route, open_route, o_creat, o_append, o_rdwr, o_wronly,
  o_rdonly, add_if, pycapio_flags,
}

-- <fcntl.h>
abbrev pub o_accmode : ℕ
o_accmode = 3

abbrev pub o_trunc : ℕ
o_trunc = 0o1000

-- The flags of a mode, by the letters that are in it.
abbrev flags_of : Bool → Bool → Bool → Bool → ℕ
flags_of plus a w r =
    if plus
    then add_if a o_append (add_if w o_creat 2)
    else add_if r o_rdonly (add_if a 1025 (add_if w 65 0))

abbrev Described : Bool → Bool → Bool → ℕ → Type 0
Described plus a w flags =
    (bit_and flags o_accmode ≡ (if plus then o_rdwr else if a || w then o_wronly else o_rdonly))
    × (bit_and flags o_creat ≡ (if w then o_creat else 0))
    × (bit_and flags o_append ≡ (if a then o_append else 0))
    × (bit_and flags o_trunc ≡ 0)

flags_of-Described : (plus a w r : Bool) → Described plus a w (flags_of plus a w r)
flags_of-Described true true true r = (refl, refl, refl, refl)
flags_of-Described true true false r = (refl, refl, refl, refl)
flags_of-Described true false true r = (refl, refl, refl, refl)
flags_of-Described true false false r = (refl, refl, refl, refl)
flags_of-Described false true true true = (refl, refl, refl, refl)
flags_of-Described false true true false = (refl, refl, refl, refl)
flags_of-Described false true false true = (refl, refl, refl, refl)
flags_of-Described false true false false = (refl, refl, refl, refl)
flags_of-Described false false true true = (refl, refl, refl, refl)
flags_of-Described false false true false = (refl, refl, refl, refl)
flags_of-Described false false false true = (refl, refl, refl, refl)
flags_of-Described false false false false = (refl, refl, refl, refl)

-- For any text of a mode, `open_proxy` asks for reading and writing with a "+", else for writing
-- with an "a" or a "w", else for reading; it creates the file exactly with a "w", appends exactly
-- with an "a", and never truncates.
pub pycapio_flags-bits :
    (mode : Bytes)
    → let flags = pycapio_flags mode in
      (bit_and flags o_accmode ≡ (
        if contains b'+' mode
        then o_rdwr
        else if contains b'a' mode || contains b'w' mode
        then o_wronly
        else o_rdonly))
      × (bit_and flags o_creat ≡ (if contains b'w' mode then o_creat else 0))
      × (bit_and flags o_append ≡ (if contains b'a' mode then o_append else 0))
      × (bit_and flags o_trunc ≡ 0)
unfolding pycapio_flags
pycapio_flags-bits mode =
    flags_of-Described (contains b'+' mode) (contains b'a' mode) (contains b'w' mode)
      (contains b'r' mode)

starts_with-append : (p s : Bytes) → starts_with (p ++ s) p ≡ true
starts_with-append [] s = refl
starts_with-append (x ∷ p) s = ground (arith, starts_with-append p s)

-- Where a CAPIO directory is set, a path whose text begins with the directory's goes to CAPIO, by
-- all proxies, whether it is inside the directory or not; for `open` if ".python_history" does not
-- occur in it.
pub routes-prefix :
    (dir s : Bytes)
    → is_empty dir ≡ false
    → occurs (codes ".python_history") (dir ++ s) ≡ false
    → (proxy_route (some dir) (dir ++ s) ≡ capio) × (open_route (some dir) (dir ++ s) ≡ capio)
unfolding proxy_route open_route
routes-prefix dir s h o =
    (rw (h, starts_with-append dir s) refl, rw (h, starts_with-append dir s, o) refl)
