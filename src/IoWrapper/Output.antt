-- ===== src/IoWrapper/Output.antt =====
-- include/IOWrapper.hpp, lines 72-93 and 175-195: construction, writing, seeking, closing.
pub mod Laws
pub mod Repeats
use py_capio.Base.{
  ℕ, ◌≡◌, ℤ, pos, eq_ℤ, Bytes, Bool, true, false, List, [], ◌∷◌, length, if◌then◌else◌, Outcome, ok,
  raised, undefined, py_capio_exception, write_failed,
}
use py_capio.Posix.{Capio, libcapio_write, libcapio_close, libcapio_lseek}
use py_capio.IoWrapper.{IoWrapper}

module _ (K : Capio) where
  open K use {World}

  unfoldable pub write : IoWrapper → Bytes → World → Outcome ℤ × World
  write self text w =
      let (write_size, w') = libcapio_write K self.file_descriptor text w in
      if eq_ℤ write_size (pos (length text))
      then (ok write_size, w')
      else (raised (py_capio_exception (write_failed write_size)), w')

  -- An exception of `write` leaves the lines behind it unwritten.
  unfoldable pub writelines : IoWrapper → List Bytes → World → Outcome (Unit {0}) × World
  unfolding write
  writelines self [] w = (ok tt, w)
  writelines self (line ∷ lines) w =
      let (r, w') = write self line w in
      elim r [
        | ok _ ↦ writelines self lines w'
        | raised e ↦ (raised e, w')
        | undefined ↦ (undefined, w')
      ]

  unfoldable pub fileno : IoWrapper → ℤ
  fileno self = self.file_descriptor

  -- The wrapper is left as it is, its buffer included.
  unfoldable pub seek : IoWrapper → ℤ → ℕ → World → Outcome ℤ × World
  unfolding fileno
  seek self offset whence w = libcapio_lseek K (fileno self) offset whence w

  unfoldable pub close : IoWrapper → World → IoWrapper × World
  close self w =
      if self.closed
      then (self, w)
      else (record self { closed = true }, (libcapio_close K self.file_descriptor w).1)

  unfoldable pub flush : World → World
  flush w = K.flush_write_cache (K.flush_read_cache w)

  -- `~IOWrapper`
  pub destroy : IoWrapper → World → World
  unfolding flush close
  destroy self w = (close self (flush w)).1
