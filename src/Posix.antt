-- ===== src/Posix.antt =====
-- include/_libcapio_impl.hpp, lines 247-354: the libcapio_* wrappers of the POSIX calls, declared in
-- include/libcapio.hpp. A wrapper asks the handler of the CAPIO library; where the handler answers
-- CAPIO_POSIX_SYSCALL_REQUEST_SKIP the file is not CAPIO's, and the wrapper delegates to glibc or
-- throws. The handlers (posix/handlers.hpp of CAPIO), glibc and errno are the parameter `Capio`.
-- Logging is left out: it does not touch the results.
pub mod Laws
pub mod Skipping
pub mod Tests
pub mod Sample
use py_capio.Base.{
  ℕ, ℤ, eq_ℤ, to_int, Bytes, Option, Outcome, ok, raised, py_capio_exception, readdir_unsupported,
  mkdir_unsupported, lseek_unsupported, stat_unsupported, if◌then◌else◌,
}

-- `struct dirent64` and `struct stat`, the fields that are read here.
pub record Dirent : Type 0 where
  pub d_name : Bytes
  pub d_ino : ℕ
  pub d_type : ℕ

pub record Stat : Type 0 where
  pub st_mode : ℕ
  pub st_size : ℕ

-- The answer of a call that fills a buffer: its result, and the bytes that it stored there.
pub record Transfer : Type 0 where
  pub result : ℤ
  pub stored : Bytes

-- What src/ does not implement. `World` is all that the calls can change; a call that fills a
-- structure says whether it did.
pub record Capio : Type 1 where
  pub World : Type 0
  pub request_skip : ℤ
  pub errno : World → ℕ
  pub openat_handler : Bytes → ℕ → World → ℤ × World
  pub glibc_open : Bytes → ℕ → ℕ → World → ℤ × World
  pub read_handler : ℤ → ℕ → World → Transfer × World
  pub glibc_read : ℤ → ℕ → World → Transfer × World
  pub write_handler : ℤ → Bytes → World → ℤ × World
  pub glibc_write : ℤ → Bytes → World → ℤ × World
  pub close_handler : ℤ → World → ℤ × World
  pub getdents_handler : ℤ → World → ℤ × Option Dirent × World
  pub mkdir_handler : Bytes → ℕ → World → ℤ × World
  pub lseek_handler : ℤ → ℤ → ℕ → World → ℤ × World
  pub lstat_handler : Bytes → World → ℤ × Option Stat × World
  pub flush_read_cache : World → World
  pub flush_write_cache : World → World

module _ (K : Capio) where
  open K use {World, request_skip}

  unfoldable pub libcapio_open : Bytes → ℕ → ℕ → World → ℤ × World
  libcapio_open path flags mode w =
      let (result, w') = K.openat_handler path flags w in
      if eq_ℤ result request_skip then K.glibc_open path flags mode w' else (to_int result, w')

  unfoldable pub libcapio_read : ℤ → ℕ → World → Transfer × World
  libcapio_read fd size w =
      let (t, w') = K.read_handler fd size w in
      if eq_ℤ t.result request_skip then K.glibc_read fd size w' else (t, w')

  unfoldable pub libcapio_write : ℤ → Bytes → World → ℤ × World
  libcapio_write fd buf w =
      let (result, w') = K.write_handler fd buf w in
      if eq_ℤ result request_skip then K.glibc_write fd buf w' else (result, w')

  -- The one wrapper that returns REQUEST_SKIP to its caller.
  unfoldable pub libcapio_close : ℤ → World → ℤ × World
  libcapio_close fd w = K.close_handler fd w

  unfoldable pub libcapio_readdir : ℤ → World → Outcome (ℤ × Option Dirent) × World
  libcapio_readdir fd w =
      let (result, entry, w') = K.getdents_handler fd w in
      if eq_ℤ result request_skip
      then (raised (py_capio_exception readdir_unsupported), w')
      else (ok (result, entry), w')

  unfoldable pub libcapio_mkdir : Bytes → ℕ → World → Outcome ℤ × World
  libcapio_mkdir path mode w =
      let (result, w') = K.mkdir_handler path mode w in
      if eq_ℤ result request_skip
      then (raised (py_capio_exception mkdir_unsupported), w')
      else (ok result, w')

  unfoldable pub libcapio_lseek : ℤ → ℤ → ℕ → World → Outcome ℤ × World
  libcapio_lseek fd offset whence w =
      let (result, w') = K.lseek_handler fd offset whence w in
      if eq_ℤ result request_skip
      then (raised (py_capio_exception lseek_unsupported), w')
      else (ok result, w')

  unfoldable pub libcapio_stat : Bytes → World → Outcome (ℤ × Option Stat) × World
  libcapio_stat path w =
      let (result, statbuf, w') = K.lstat_handler path w in
      if eq_ℤ result request_skip
      then (raised (py_capio_exception stat_unsupported), w')
      else (ok (result, statbuf), w')
