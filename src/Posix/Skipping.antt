-- ===== src/Posix/Skipping.antt =====
-- What the wrappers of include/_libcapio_impl.hpp make of CAPIO_POSIX_SYSCALL_REQUEST_SKIP, the code
-- by which a handler declines a file that is not CAPIO's.
use py_capio.Base.{
  to_int, ap, ℕ, ℤ, Bytes, Bool, false, eq_ℤ, Outcome, ok, raised, undefined, ◌≡◌, refl, arith,
}
use py_capio.Posix.{
  Capio, libcapio_open, libcapio_read, libcapio_write, libcapio_close, libcapio_readdir,
  libcapio_mkdir, libcapio_lseek, libcapio_stat,
}

module _ (K : Capio) where
  abbrev pub is_skip : ℤ → Bool
  is_skip z = eq_ℤ z K.request_skip

  -- What a call that may raise returns to its caller.
  abbrev pub skip_in : {A : Type 0} → (A → ℤ) → Outcome A → Bool
  skip_in result (ok a) = is_skip (result a)
  skip_in result (raised e) = false
  skip_in result undefined = false

  -- glibc's results, a descriptor, a count or -1, are none of CAPIO's codes, and what an open of
  -- CAPIO's answers is an `int`.
  pub record CodesApart : Type 0 where
    pub opens :
        (path : Bytes) (flags mode : ℕ) (w : K.World)
        → is_skip (K.glibc_open path flags mode w).0 ≡ false
    pub reads :
        (fd : ℤ) (size : ℕ) (w : K.World) → is_skip (K.glibc_read fd size w).0.result ≡ false
    pub writes : (fd : ℤ) (buf : Bytes) (w : K.World) → is_skip (K.glibc_write fd buf w).0 ≡ false
    pub is_int :
        (path : Bytes) (flags : ℕ) (w : K.World)
        → to_int (K.openat_handler path flags w).0 ≡ (K.openat_handler path flags w).0

  -- Where no result of glibc is the skip code, and what CAPIO answers to an open fits an `int`, no
  -- wrapper returns the skip code to its caller but `libcapio_close`, which returns what its
  -- handler does: `open`, `read` and `write` answer by glibc, and the others raise or return
  -- another result.
  pub skip_hidden :
      (path buf : Bytes) (flags mode size whence : ℕ) (fd offset : ℤ) (w : K.World)
      → CodesApart
      → (is_skip (libcapio_open K path flags mode w).0 ≡ false)
        × (is_skip (libcapio_read K fd size w).0.result ≡ false)
        × (is_skip (libcapio_write K fd buf w).0 ≡ false)
        × (skip_in (λ r. r.0) (libcapio_readdir K fd w).0 ≡ false)
        × (skip_in (λ r. r) (libcapio_mkdir K path mode w).0 ≡ false)
        × (skip_in (λ r. r) (libcapio_lseek K fd offset whence w).0 ≡ false)
        × (skip_in (λ r. r.0) (libcapio_stat K path w).0 ≡ false)
        × (is_skip (libcapio_close K fd w).0 ≡ is_skip (K.close_handler fd w).0)
  unfolding libcapio_open libcapio_read libcapio_write libcapio_close libcapio_readdir
      libcapio_mkdir libcapio_lseek libcapio_stat
  skip_hidden path buf flags mode size whence fd offset w G = (
    ground (
      arith,
      G.opens path flags mode (K.openat_handler path flags w).1,
      ap is_skip (G.is_int path flags w),
    ),
    ground (arith, G.reads fd size (K.read_handler fd size w).1),
    ground (arith, G.writes fd buf (K.write_handler fd buf w).1),
    ground arith,
    ground arith,
    ground arith,
    ground arith,
    refl,
  )
