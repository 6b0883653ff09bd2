-- ===== src/OsPath/Queries.antt =====
-- The members of `OsPath` (src/OsPath.cpp) that ask CAPIO, by what `lstat_handler` and errno say of a
-- path.
use Prim.Native.Nat.{bit_and}
use py_capio.Base.{
  ℕ, ℤ, negsuc, eq_ℤ, ◌≡◌, Bytes, Bool, true, false, ◌&&◌, not, Option, none, some, arith, ◌==◌,
  c_str, if◌then◌else◌, Outcome, ok, raised, py_capio_exception, stat_unsupported,
}
use py_capio.Posix.{Capio, Stat, libcapio_stat}
use py_capio.OsPath.{enoent, s_ifmt, s_ifreg, exists, isfile, isdir, getsize}

-- What is known of a path: it is not CAPIO's, it does not exist, the call failed in another way, or
-- its metadata.
pub data Status : Type 0 where
  foreign missing failed : Status
  present : Stat → Status

-- The table of answers: of `exists`, `isfile`, `isdir` and `getsize`.
abbrev pub Answers : Type 0
Answers = Outcome Bool × Outcome Bool × Outcome Bool × Outcome ℕ

abbrev unsupported {ℓ} : {A : Type ℓ} → Outcome A
unsupported = raised (py_capio_exception stat_unsupported)

abbrev pub answers : Status → Answers
answers foreign = (unsupported, unsupported, unsupported, unsupported)
answers missing = (ok false, ok false, ok true, ok 0)
answers failed = (ok true, ok false, ok true, ok 0)
answers (present s) =
    let regular = bit_and s.st_mode s_ifmt == s_ifreg in
    (ok true, ok regular, ok (not regular), ok s.st_size)

module _ (K : Capio) where
  -- Read off the handler's answer and errno. A buffer that was not filled counts as a failure.
  abbrev status_of : ℤ × Option Stat × K.World → Status
  status_of (result, statbuf, w) =
      if eq_ℤ result K.request_skip
      then foreign
      else if eq_ℤ result (negsuc 0) && K.errno w == enoent
      then missing
      else elim statbuf [ none ↦ failed | some s ↦ present s ]

  pub status : Bytes → K.World → Status
  status path w = status_of (K.lstat_handler path w)

  -- What `exists`, `isfile`, `isdir` and `getsize` answer, by what CAPIO says of the path: all four
  -- raise for a path that is not CAPIO's, a path that does not exist is a directory to `isdir`, and
  -- so is all that exists and is no regular file.
  pub queries-answers :
      (path : Bytes) (w : K.World)
      → let q : Answers =
          ((exists K path w).0, (isfile K path w).0, (isdir K path w).0, (getsize K path w).0) in
        q ≡ answers (status (c_str path) w)
  unfolding exists isfile isdir getsize status libcapio_stat
  queries-answers path w = ground arith
