-- ===== src/IoWrapper/Ahead.antt =====
-- A file object that is read and written (include/IOWrapper.hpp): `write` behind `readline`.
use py_capio.Base.{
  ℕ, ◌<◌, ◌≡◌, ◌≢◌, sym, ap, ◌∙◌, subst, ℤ, pos, Bytes, some, [], ◌++◌, append_assoc, length, drop,
  arith, ok,
}
use mathlib.Core.List.{append_cancel_right}
use py_capio.Posix.{Capio, libcapio_write}
use py_capio.Posix.Laws.{IsReadable}
use py_capio.IoWrapper.{IoWrapper, IoMode, wrap, readline}
use py_capio.IoWrapper.Lines.{line_of, rest_of, line_of-append-rest_of}
use py_capio.IoWrapper.Readlines.{readline-line_of}
use py_capio.IoWrapper.Keeping.{KeptByReads, readline-Keeps, Keeps}
use py_capio.IoWrapper.Output.{write}

-- A file with the bytes `before` in front of the descriptor's position and `remaining` behind it: no
-- read changes the whole, and a write of CAPIO's, which is complete, puts its bytes at the position
-- over those that are there.
pub record IsPositioned (K : Capio) (fd : ℤ) (before remaining : K.World → Bytes) : Type 0 where
  pub reading : KeptByReads K (λ w. before w ++ remaining w)
  pub counted : (s : Bytes) (w : K.World) → (K.write_handler fd s w).0 ≡ pos (length s)
  pub counts : (n : ℕ) → pos n ≢ K.request_skip
  pub put : (s : Bytes) (w : K.World) → before (K.write_handler fd s w).1 ≡ before w ++ s
  pub covered :
      (s : Bytes) (w : K.World)
      → remaining (K.write_handler fd s w).1 ≡ drop (length s) (remaining w)

module _ (K : Capio) (before remaining : K.World → Bytes) where
  write-Positioned :
      (self : IoWrapper) (s : Bytes) (w : K.World)
      → IsPositioned K self.file_descriptor before remaining
      → write K self s w ≡ (ok (pos (length s)), (K.write_handler self.file_descriptor s w).1)
  unfolding write libcapio_write
  write-Positioned self s w P = ground (arith, P.counted s w, P.counts (length s))

  -- The bytes that were read ahead are in front of the position.
  before_read :
      (p l b r p' r' : Bytes) → p' ++ r' ≡ p ++ r → r ≡ l ++ (b ++ r') → p' ≡ p ++ (l ++ b)
  before_read p l b r p' r' same parts = append_cancel_right p' (p ++ (l ++ b)) r' (
      same
      ∙ ap (λ t. p ++ t) (parts ∙ sym (append_assoc l b r'))
      ∙ sym (append_assoc p (l ++ b) r'))

  -- On a readable descriptor of a file with a position, whose writes are complete and go over what
  -- is behind the position, with a positive chunk size, more fuel than bytes remain and nothing
  -- buffered, a `write` behind a `readline` does not put its text behind the line that was
  -- returned, but behind the bytes that were read ahead, which stay buffered: the file is then what
  -- was in front, the line, those bytes, the text, and what remained less as many bytes.
  pub write_ahead :
      (fuel : ℕ) (mode : IoMode) (self : IoWrapper) (s : Bytes) (w : K.World)
      → IsReadable K self.file_descriptor remaining
      → IsPositioned K self.file_descriptor before remaining
      → 0 < self.chunk_size
      → length (remaining w) < fuel
      → self.buffer ≡ []
      → (b : Bytes) × (w1 w2 : K.World) × (readline K fuel mode self w
          ≡ some (wrap mode (line_of (remaining w)), record self { buffer = b }, w1))
        × (write K (record self { buffer = b }) s w1 ≡ (ok (pos (length s)), w2))
        × (b ++ remaining w1 ≡ rest_of (remaining w))
        × (before w2 ++ remaining w2
            ≡ before w ++ (line_of (remaining w) ++ (b ++ (s ++ drop (length s) (remaining w1)))))
  write_ahead fuel mode self s w R P c enough empty =
      let start : self.buffer ++ remaining w ≡ remaining w = ap (λ b. b ++ remaining w) empty in
      let (b, w1, e, rest) =
        readline-line_of K remaining fuel mode self w R c (omega (arith, ap length start)) in
      let line : readline K fuel mode self w
          ≡ some (wrap mode (line_of (remaining w)), record self { buffer = b }, w1) =
        e ∙ ap (λ t. some (wrap mode (line_of t), record self { buffer = b }, w1)) start in
      let behind : b ++ remaining w1 ≡ rest_of (remaining w) = rest ∙ ap rest_of start in
      let (closed, same) =
        subst (Keeps K (λ w. before w ++ remaining w) P.reading self w) line
          (readline-Keeps K (λ w. before w ++ remaining w) P.reading fuel mode self w) in
      let parts : remaining w ≡ line_of (remaining w) ++ (b ++ remaining w1) =
        sym (line_of-append-rest_of (remaining w))
        ∙ ap (λ t. line_of (remaining w) ++ t) (sym behind) in
      let position =
        before_read (before w) (line_of (remaining w)) b (remaining w) (before w1) (remaining w1)
          same parts in
      let self' = record self { buffer = b } in
      (
        b,
        w1,
        (K.write_handler self.file_descriptor s w1).1,
        line,
        write-Positioned self' s w1 P,
        behind,
        rw (P.put s w1, P.covered s w1, position) (simp append_assoc),
      )
