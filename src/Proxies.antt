-- ===== src/Proxies.antt =====
-- pycapio/__init__.py, lines 110-257: the proxies that stand in for Python's functions on files; which
-- calls go to CAPIO, and the flags of `open`.
pub mod Flags
pub mod Calls
pub mod Reading
pub mod Pipeline
pub mod Tests
use Prim.Native.Nat.{bit_or}
use py_capio.Base.{
  ℕ, Bytes, Bool, true, false, ◌&&◌, ◌||◌, not, Option, none, some, [], ◌∷◌, codes, is_empty,
  if◌then◌else◌, ◌==◌,
}
use py_capio.FsPath.{contains}

-- `s.startswith(p)`
abbrev pub starts_with : Bytes → Bytes → Bool
starts_with s [] = true
starts_with [] (y ∷ p) = false
starts_with (x ∷ s) (y ∷ p) = x == y && starts_with s p

-- `p in s`
abbrev pub occurs : Bytes → Bytes → Bool
occurs p [] = is_empty p
occurs p (x ∷ s) = starts_with (x ∷ s) p || occurs p s

-- Who answers the call.
pub data Route : Type 0 where
  builtin capio : Route

-- The test of `scandir_proxy`, `mkdir_proxy`, `makedirs_proxy` and `listdir_proxy`, by `_CAPIO_DIR` and
-- the absolute path. `None` and the empty text are false.
unfoldable pub proxy_route : Option Bytes → Bytes → Route
proxy_route none target_path = builtin
proxy_route (some dir) target_path =
    if not (is_empty dir) && starts_with target_path dir then capio else builtin

-- The test of `open_proxy`
unfoldable pub open_route : Option Bytes → Bytes → Route
open_route none target_path = capio
open_route (some dir) target_path =
    if not (is_empty dir)
      && (not (starts_with target_path dir) || occurs (codes ".python_history") target_path)
    then builtin
    else capio

-- <fcntl.h>, as FILE_MODES passes it on
abbrev pub o_rdonly : ℕ
o_rdonly = 0

abbrev pub o_wronly : ℕ
o_wronly = 1

abbrev pub o_rdwr : ℕ
o_rdwr = 2

abbrev pub o_creat : ℕ
o_creat = 0o100

abbrev pub o_append : ℕ
o_append = 0o2000

-- `if test: flags |= more`
abbrev pub add_if : Bool → ℕ → ℕ → ℕ
add_if test more flags = if test then bit_or flags more else flags

-- `pycapio_flags`, of the text of the mode
unfoldable pub pycapio_flags : Bytes → ℕ
pycapio_flags flags_str =
    if contains b'+' flags_str
    then add_if (contains b'a' flags_str) o_append
        (add_if (contains b'w' flags_str) o_creat (bit_or 0 o_rdwr))
    else add_if (contains b'r' flags_str) o_rdonly (
        add_if (contains b'a' flags_str) (bit_or o_wronly o_append)
          (add_if (contains b'w' flags_str) (bit_or o_wronly o_creat) 0))
