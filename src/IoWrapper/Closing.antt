-- ===== src/IoWrapper/Closing.antt =====
-- The methods of `IOWrapper` (include/IOWrapper.hpp) and the number of descriptors that are closed.
use py_capio.Base.{
  ℕ, suc, ◌≡◌, refl, ◌∙◌, ℤ, Bytes, List, [], ◌∷◌, arith, Outcome, ok, raised, undefined,
}
use py_capio.Posix.{Capio, libcapio_write, libcapio_lseek}
use py_capio.IoWrapper.{IoWrapper}
use py_capio.IoWrapper.Keeping.{KeptByReads}
use py_capio.IoWrapper.Output.{write, writelines, seek}

-- Only closing closes: `closes` counts the descriptors that were closed.
pub record CountsCloses (K : Capio) (closes : K.World → ℕ) : Type 0 where
  pub reading : KeptByReads K closes
  pub writes : (fd : ℤ) (s : Bytes) (w : K.World) → closes (K.write_handler fd s w).1 ≡ closes w
  pub glibc_writes : (fd : ℤ) (s : Bytes) (w : K.World) → closes (K.glibc_write fd s w).1 ≡ closes w
  pub seeks :
      (fd offset : ℤ) (whence : ℕ) (w : K.World)
      → closes (K.lseek_handler fd offset whence w).1 ≡ closes w
  pub flushes : (w : K.World) → closes (K.flush_write_cache (K.flush_read_cache w)) ≡ closes w
  pub closing : (fd : ℤ) (w : K.World) → closes (K.close_handler fd w).1 ≡ suc (closes w)

module _ (K : Capio) (closes : K.World → ℕ) (C : CountsCloses K closes) where
  libcapio_write-closes :
      (fd : ℤ) (s : Bytes) (w : K.World) → closes (libcapio_write K fd s w).1 ≡ closes w
  unfolding libcapio_write
  libcapio_write-closes fd s w =
      ground (arith, C.writes fd s w, C.glibc_writes fd s (K.write_handler fd s w).1)

  pub write-closes :
      (self : IoWrapper) (s : Bytes) (w : K.World) → closes (write K self s w).1 ≡ closes w
  unfolding write
  write-closes self s w = ground (arith, libcapio_write-closes self.file_descriptor s w)

  pub seek-closes :
      (self : IoWrapper) (offset : ℤ) (whence : ℕ) (w : K.World)
      → closes (seek K self offset whence w).1 ≡ closes w
  unfolding seek libcapio_lseek
  seek-closes self offset whence w = ground (arith, C.seeks self.file_descriptor offset whence w)

  abbrev pub SameCount : K.World → Outcome (Unit {0}) × K.World → Type 0
  SameCount w (r, w') = closes w' ≡ closes w

  pub writelines-closes :
      (self : IoWrapper) (lines : List Bytes) (w : K.World)
      → SameCount w (writelines K self lines w)
  unfolding writelines
  writelines-closes self [] w = refl
  writelines-closes self (line ∷ lines) w =
      go (write K self line w) (write-closes self line w) (writelines-closes self lines)
    where
      go :
          (r : Outcome ℤ × K.World)
          → closes r.1 ≡ closes w
          → ((w' : K.World) → SameCount w' (writelines K self lines w'))
          → SameCount w (elim r.0 [
            | ok _ ↦ writelines K self lines r.1
            | raised e ↦ (raised e, r.1)
            | undefined ↦ (undefined, r.1)
          ])
      go (ok z, w') h again = again w' ∙ h
      go (raised e, w') h again = h
      go (undefined, w') h again = h
