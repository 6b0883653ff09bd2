-- ===== src/OsPath.antt =====
-- src/OsPath.cpp and include/OsPath.hpp: the class that stands in for Python's `os.path`. Its first
-- four members ask CAPIO; the others are `std::filesystem::path`'s (FsPath). The current directory
-- and `canonical`, which follows symbolic links, are arguments; `relpath`, `getmtime` and `samefile`
-- are in OsPath/Files.
pub mod Queries
pub mod Paths
pub mod Normal
pub mod Joining
pub mod Parents
pub mod Splitting
pub mod Files
pub mod Tests
use Prim.Native.Nat.{bit_and}
use py_capio.Base.{
  ℕ, ℤ, negsuc, eq_ℤ, Bytes, Bool, true, false, ◌&&◌, not, Option, none, some, [], is_empty, ◌==◌,
  c_str, if◌then◌else◌, Outcome, ok, raised, undefined, filesystem_error,
}
use py_capio.Posix.{Capio, Stat, libcapio_stat}
use py_capio.FsPath.Normal.{lexically_normal}
use py_capio.FsPath.{filename, parent_path, append_path, is_absolute, stem, extension}

-- <errno.h> and <sys/stat.h>
abbrev pub enoent : ℕ
enoent = 2

abbrev pub s_ifmt : ℕ
s_ifmt = 0o170000

abbrev pub s_ifreg : ℕ
s_ifreg = 0o100000

-- `statbuf`, zeroed before the call.
abbrev pub stat_or_zero : Option Stat → Stat
stat_or_zero none = record { st_mode = 0; st_size = 0 }
stat_or_zero (some s) = s

module _ (K : Capio) where
  open K use {World}

  -- `libcapio_stat(...) == -1 && errno == ENOENT`, with the buffer.
  abbrev pub stat : Bytes → World → Outcome (Bool × Stat) × World
  stat path w =
      let (r, w') = libcapio_stat K (c_str path) w in
      let answer : Outcome (Bool × Stat) = elim r [
        | ok (result, statbuf) ↦
            ok (eq_ℤ result (negsuc 0) && K.errno w' == enoent, stat_or_zero statbuf)
        | raised e ↦ raised e
        | undefined ↦ undefined
      ] in
      (answer, w')

  -- The answer of a query that is `missing` for a path that is not there.
  abbrev pub answer {ℓ} : {A : Type ℓ} → A → (Stat → A) → Outcome (Bool × Stat) → Outcome A
  answer missing found (ok (absent, statbuf)) = if absent then ok missing else ok (found statbuf)
  answer missing found (raised e) = raised e
  answer missing found undefined = undefined

  unfoldable pub exists : Bytes → World → Outcome Bool × World
  exists path w = let (r, w') = stat path w in (answer false (λ statbuf. true) r, w')

  unfoldable pub isfile : Bytes → World → Outcome Bool × World
  isfile path w =
      let (r, w') = stat path w in
      (answer false (λ statbuf. bit_and statbuf.st_mode s_ifmt == s_ifreg) r, w')

  unfoldable pub isdir : Bytes → World → Outcome Bool × World
  unfolding isfile
  isdir path w =
      let (r, w') = isfile path w in
      let negated : Outcome Bool = elim r [
        | ok b ↦ ok (not b)
        | raised e ↦ raised e
        | undefined ↦ undefined
      ] in
      (negated, w')

  unfoldable pub getsize : Bytes → World → Outcome ℕ × World
  getsize path w = let (r, w') = stat path w in (answer 0 (λ statbuf. statbuf.st_size) r, w')

pub basename : Bytes → Bytes
basename path = filename path

unfoldable pub dirname : Bytes → Bytes
dirname path = parent_path path

-- `std::filesystem::absolute`, from the current directory `cwd`; it refuses the empty path.
unfoldable pub abspath : Bytes → Bytes → Outcome Bytes
abspath cwd path = if is_empty path then raised filesystem_error else ok (append_path cwd path)

pub splitext : Bytes → Bytes × Bytes
splitext path = (stem path, extension path)

pub isabs : Bytes → Bool
isabs p = is_absolute p

pub split : Bytes → Bytes × Bytes
split p = (parent_path p, filename p)

pub normcase : Bytes → Bytes
normcase p = p

-- `canonical` gives the path, or raises `filesystem_error`, which is caught.
pub realpath : (Bytes → Outcome Bytes) → Bytes → Outcome Bytes
realpath canonical path = elim (canonical path) [
  | ok p ↦ ok p
  | raised filesystem_error ↦ ok []
  | raised e ↦ raised e
  | undefined ↦ undefined
]

unfoldable pub normpath : Bytes → Bytes
normpath p = lexically_normal p

unfoldable pub join : Bytes → Bytes → Bytes
join path1 path2 =
    if is_empty path1 && is_empty path2
    then []
    else if is_empty path1 && not (is_empty path2)
    then path2
    else if is_empty path2 && not (is_empty path1)
    then path1
    else append_path path1 path2
