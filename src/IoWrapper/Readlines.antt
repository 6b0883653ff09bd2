-- ===== src/IoWrapper/Readlines.antt =====
-- `IOWrapper::readline`, `next` and `readlines` (include/IOWrapper.hpp) against the lines of a text.
use py_capio.Base.{
  ℕ, zero, suc, ◌≤◌, ◌<◌, ◌≡◌, sym, ap, ◌∙◌, Bytes, true, false, Option, some, List, [], ◌∷◌, ◌++◌,
  map, append_assoc, append-nil, length, length-append, arith, Bool-cases, inl, inr, is_empty,
  if◌then◌else◌, Outcome, ok, raised, stop_iteration,
}
use py_capio.Posix.{Capio}
use py_capio.Posix.Laws.{IsReadable}
use py_capio.IoWrapper.{
  IoWrapper, IoMode, ReturnType, wrap, readline_loop, next, readlines_loop, readlines, readline,
}
use py_capio.IoWrapper.Lines.{line_of, rest_of, lines, is_empty-line_of, lines-cons, lines-nil}
use py_capio.IoWrapper.Readline.{pending, readline_loop-IsLineRead}

module _ (K : Capio) (remaining : K.World → Bytes) where
  pub remaining-le :
      (self : IoWrapper) (w : K.World) → length (remaining w) ≤ length (pending K remaining self w)
  remaining-le self w = omega (arith, length-append self.buffer (remaining w))

  -- `next` in terms of the line that the loop gives.
  next-of_line :
      (fuel : ℕ) (mode : IoMode) (self self' : IoWrapper) (w w' : K.World) (line : Bytes)
      → self.exhausted ≡ false
      → readline_loop K fuel [] self w ≡ some (line, self', w')
      → next K fuel mode self w ≡ (
          if is_empty line
          then some (raised stop_iteration, record self' { exhausted = true }, w')
          else some (ok (wrap mode line), self', w'))
  unfolding next
  next-of_line fuel mode self self' w w' line fresh e = ground arith

  module _ (fuel : ℕ) (mode : IoMode) (self : IoWrapper) (w : K.World)
      (R : IsReadable K self.file_descriptor remaining) (c : 0 < self.chunk_size)
      (enough : length (pending K remaining self w) < fuel) where
    -- On a readable descriptor, with a positive chunk size and more fuel than there are pending
    -- bytes, `readline` returns the first line of what is pending, its newline included, and leaves
    -- the rest pending, however the reads are cut.
    pub readline-line_of :
        (b : Bytes) × (w' : K.World) × (readline K fuel mode self w
          ≡ some (wrap mode (line_of (pending K remaining self w)), record self { buffer = b }, w'))
        × (b ++ remaining w' ≡ rest_of (pending K remaining self w))
    unfolding readline
    readline-line_of =
        let (b, w', e, rest) =
          readline_loop-IsLineRead K remaining fuel [] self w R c
            (omega (arith, remaining-le self w)) in
        (b, w', rw (e, readline), rest)

    -- On a readable descriptor, with a positive chunk size, more fuel than there are pending bytes,
    -- and a wrapper that is not exhausted, `next` returns the first line of what is pending and
    -- leaves the rest pending; where nothing is pending it raises `stop_iteration` and marks the
    -- wrapper exhausted.
    pub next-line_of :
        self.exhausted ≡ false
        → (b : Bytes) × (w' : K.World) × (next K fuel mode self w ≡ (
            if is_empty (pending K remaining self w)
            then some (raised stop_iteration, record self { buffer = b; exhausted = true }, w')
            else some (
              ok (wrap mode (line_of (pending K remaining self w))),
              record self { buffer = b },
              w',
            )))
          × (b ++ remaining w' ≡ rest_of (pending K remaining self w))
    unfolding next
    next-line_of fresh =
        let (b, w', e, rest) =
          readline_loop-IsLineRead K remaining fuel [] self w R c
            (omega (arith, remaining-le self w)) in
        (
          b,
          w',
          next-of_line fuel mode self _ w w' _ fresh e
              ∙ ap
                  (λ t.
                    if t
                    then some
                        (raised stop_iteration, record self { buffer = b; exhausted = true }, w')
                    else some (
                      ok (wrap mode (line_of (pending K remaining self w))),
                      record self { buffer = b },
                      w',
                    ))
                  (is_empty-line_of (pending K remaining self w)),
          rest,
        )

  -- What the loop of `readlines` leaves: all lines found, nothing pending, the end noted.
  abbrev AllLines :
      IoMode
      → List ReturnType
      → IoWrapper
      → K.World
      → Option (Outcome (List ReturnType) × IoWrapper × K.World)
      → Type 0
  AllLines mode found self w r =
      (b : Bytes) × (w' : K.World) × (r
        ≡ some (
          ok (found ++ map (wrap mode) (lines (pending K remaining self w))),
          record self { buffer = b; exhausted = true },
          w',
        ))
      × (b ++ remaining w' ≡ [])

  readlines_loop-AllLines :
      (rounds fuel : ℕ) (mode : IoMode) (found : List ReturnType) (self : IoWrapper) (w : K.World)
      → IsReadable K self.file_descriptor remaining
      → 0 < self.chunk_size
      → length (pending K remaining self w) < fuel
      → length (pending K remaining self w) < rounds
      → self.exhausted ≡ false
      → AllLines mode found self w (readlines_loop K rounds fuel mode found self w)
  unfolding readlines_loop
  readlines_loop-AllLines zero fuel mode found self w R c enough h fresh = absurd (omega arith)
  readlines_loop-AllLines (suc rounds) fuel mode found self w R c enough h fresh =
      let (b, w', e, rest) = next-line_of fuel mode self w R c enough fresh in
      elim (Bool-cases (is_empty (pending K remaining self w))) [
        | inl p ↦
            let none_left = lines-nil (pending K remaining self w) p in
            rw (e, readlines_loop, p)
              (
                b,
                w',
                ap (λ l. some (ok l, record self { buffer = b; exhausted = true }, w'))
                    (sym (append-nil found)
                      ∙ ap (λ l. found ++ map (wrap mode) l) (sym none_left.1)),
                rest ∙ none_left.2,
              )
        | inr p ↦
            let line = wrap mode (line_of (pending K remaining self w)) in
            let first = lines-cons (pending K remaining self w) p in
            let shorter : length (b ++ remaining w') < length (pending K remaining self w) =
              omega (arith, ap length rest, first.1) in
            let (b', w'', e', ended) =
              readlines_loop-AllLines rounds fuel mode (found ++ (line ∷ []))
                (record self { buffer = b }) w' R c (omega arith) (omega arith) fresh in
            rw (e, readlines_loop, p)
              (
                b',
                w'',
                e'
                    ∙ ap (λ l. some (ok l, record self { buffer = b'; exhausted = true }, w''))
                        (append_assoc found (line ∷ []) _
                          ∙ ap (λ l. found ++ map (wrap mode) l)
                              (ap (λ s. line_of (pending K remaining self w) ∷ lines s) rest
                                ∙ sym first.0)),
                ended,
              )
      ]

  -- On a readable descriptor, with a positive chunk size, more rounds and fuel than there are
  -- pending bytes, and a wrapper that is not exhausted, `readlines` returns all lines of what is
  -- pending, in order, leaves nothing pending and the wrapper exhausted.
  pub readlines-lines :
      (rounds fuel : ℕ) (mode : IoMode) (self : IoWrapper) (w : K.World)
      → IsReadable K self.file_descriptor remaining
      → 0 < self.chunk_size
      → length (pending K remaining self w) < fuel
      → length (pending K remaining self w) < rounds
      → self.exhausted ≡ false
      → (b : Bytes) × (w' : K.World) × (readlines K rounds fuel mode self w
          ≡ some (
            ok (map (wrap mode) (lines (pending K remaining self w))),
            record self { buffer = b; exhausted = true },
            w',
          ))
        × (b ++ remaining w' ≡ [])
  unfolding readlines
  readlines-lines rounds fuel mode self w R c enough h fresh =
      readlines_loop-AllLines rounds fuel mode [] self w R c enough h fresh
