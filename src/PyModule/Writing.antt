-- ===== src/PyModule/Writing.antt =====
-- `with` blocks over a file object (src/pycapio.cpp, `register_IO_wrapper`) that only write.
use py_capio.Base.{
  arith, ℕ, ◌+◌, ◌≡◌, ◌≢◌, inl, inr, refl, sym, ap, ◌∙◌, ℤ, Bytes, true, false, some, List, [], ◌∷◌,
  ◌++◌, append-nil, map, Outcome, ok, raised, undefined, py_capio_exception, write_failed,
}
use py_capio.Posix.{Capio, libcapio_close}
use py_capio.IoWrapper.{IoWrapper, IoMode}
use py_capio.IoWrapper.Lines.{concat}
use py_capio.IoWrapper.Output.{write, writelines, close}
use py_capio.IoWrapper.Output.Laws.{
  all_written, Wrote-append, Wrote-failed, IsWritable, Wrote, write-Wrote, writelines-Wrote,
}
use py_capio.IoWrapper.Closing.{CountsCloses}
use py_capio.PyModule.{
  IoCall, Value, nothing, number, returning, invoke, block, with_block, write_call, writelines_call,
}
use py_capio.PyModule.Closing.{with_block-returns, with_block-closes}

pub data Writing : Type 0 where
  writes : Bytes → Writing
  writes_lines : List Bytes → Writing

abbrev pub as_call : Writing → IoCall
as_call (writes s) = write_call s
as_call (writes_lines lines) = writelines_call lines

abbrev pub text_of : Writing → Bytes
text_of (writes s) = s
text_of (writes_lines lines) = concat lines

abbrev pub texts : List Writing → Bytes
texts [] = []
texts (x ∷ xs) = text_of x ++ texts xs

module _ (K : Capio) (written : K.World → Bytes) where
  Wrote-returning :
      {A : Type 0} (f : A → Value) (text : Bytes) (w : K.World) (r : Outcome A × K.World)
      → Wrote K written text w r
      → Wrote K written text w (returning f r.0, r.1)
  Wrote-returning f text w r (p, q, grown, parts, how) = (
    p,
    q,
    grown,
    parts,
    elim how [
      | inl ((a, e), none_left) ↦ inl ((f a, ap (returning f) e), none_left)
      | inr (z, e) ↦ inr (z, ap (returning f) e)
    ],
  )

  module _ (fuel : ℕ) (mode : IoMode) where
    invoke-Wrote :
        (x : Writing) (self : IoWrapper) (w : K.World)
        → IsWritable K self.file_descriptor written
        → (r : Outcome Value) × (w' : K.World) × (invoke K fuel mode (as_call x) self w
            ≡ some (r, self, w'))
          × Wrote K written (text_of x) w (r, w')
    unfolding invoke
    invoke-Wrote (writes s) self w W =
        let r = write K self s w in
        (
          returning number r.0,
          r.1,
          refl,
          Wrote-returning number s w r (write-Wrote K written self s w W),
        )
    invoke-Wrote (writes_lines lines) self w W =
        let r = writelines K self lines w in
        (
          returning (λ _. nothing) r.0,
          r.1,
          refl,
          Wrote-returning (λ _. nothing) (concat lines) w r
              (writelines-Wrote K written self lines w W),
        )

    block-Wrote :
        (xs : List Writing) (self : IoWrapper) (w : K.World)
        → IsWritable K self.file_descriptor written
        → (r : Outcome (Unit {0})) × (w' : K.World) × (block K fuel mode (map as_call xs) self w
            ≡ some (r, self, w'))
          × Wrote K written (texts xs) w (r, w')
    unfolding block
    block-Wrote [] self w W =
        (ok tt, w, refl, ([], [], sym (append-nil (written w)), refl, inl ((tt, refl), refl)))
    block-Wrote (x ∷ xs) self w W =
        let (r1, w1, e, (p, q, grown, parts, how)) = invoke-Wrote x self w W in
        elim how [
          | inl ((v, returned), none_left) ↦
              let (r, w2, again, rest) = block-Wrote xs self w1 W in
              let first : invoke K fuel mode (as_call x) self w ≡ some (ok v, self, w1) =
                e ∙ (λ i. some (returned i, self, w1)) in
              let so_far = all_written K written (text_of x) p q w w1 grown parts none_left in
              (
                r,
                w2,
                rw (first, block, again),
                Wrote-append K written (text_of x) (texts xs) w w1 (r, w2) so_far rest,
              )
          | inr (z, failed) ↦
              let first : invoke K fuel mode (as_call x) self w
                  ≡ some (raised (py_capio_exception (write_failed z)), self, w1) =
                e ∙ (λ i. some (failed i, self, w1)) in
              (
                raised (py_capio_exception (write_failed z)),
                w1,
                rw (first, block),
                Wrote-failed K written (text_of x) (texts xs) p q w w1 z grown parts,
              )
        ]

    close-written :
        (self : IoWrapper) (w : K.World)
        → ((fd : ℤ) (w : K.World) → written (K.close_handler fd w).1 ≡ written w)
        → written (close K self w).1 ≡ written w
    unfolding close libcapio_close
    close-written self w keeps = ground (arith, keeps self.file_descriptor w)

    -- On a writable descriptor, a `with` block over an open file object whose calls are `write` and
    -- `writelines` returns, whatever the fuel; where closing keeps what was written, it has
    -- appended the texts one behind the other, all of them where it ends by itself, and otherwise a
    -- first part of them, with the exception of a failed write. The object is closed then and,
    -- where only `close` adds one to the count of closings, there is one closing more.
    pub with_block-Wrote :
        (closes : K.World → ℕ) (xs : List Writing) (self : IoWrapper) (w : K.World)
        → IsWritable K self.file_descriptor written
        → CountsCloses K closes
        → ((fd : ℤ) (w : K.World) → written (K.close_handler fd w).1 ≡ written w)
        → self.closed ≡ false
        → (r : Outcome (Unit {0})) × (self' : IoWrapper) × (w' : K.World) × (with_block K fuel mode
              (map as_call xs)
              self
              w
            ≡ some (r, self', w'))
          × Wrote K written (texts xs) w (r, w')
          × (self'.closed ≡ true)
          × (closes w' ≡ closes w + 1)
    with_block-Wrote closes xs self w W C keeps fresh =
        let (r, w1, e, (p, q, grown, parts, how)) = block-Wrote xs self w W in
        let defined : r ≢ undefined = elim how [
          | inl ((a, returned), none_left) ↦ rw returned (λ u. cc)
          | inr (z, failed) ↦ rw failed (λ u. cc)
        ] in
        let (left, w2) = close K self w1 in
        let calls = map as_call xs in
        let ended = with_block-returns K fuel mode calls self w r self w1 e defined in
        let (shut, once) =
          with_block-closes K closes fuel mode calls self left w w2 r C fresh ended defined in
        (r, left, w2, ended, (p, q, close-written self w1 keeps ∙ grown, parts, how), shut, once)
