-- ===== src/IoWrapper/Readline.antt =====
-- The loop of `IOWrapper::readline` and `readline_raw` (include/IOWrapper.hpp) against the first line
-- of a text.
use py_capio.Base.{
  ℕ, zero, suc, ◌<◌, ◌≡◌, refl, sym, ap, ◌∙◌, is_positive, Bytes, Option, none, some, [], ◌∷◌, ◌++◌,
  append_assoc, append-nil, length, drop, replicate, arith, find, resized-overwrite, Bool-cases,
  Option-cases, inl, inr, is_empty, if◌then◌else◌,
}
use py_capio.Posix.{Capio, Transfer, libcapio_read}
use py_capio.Posix.Laws.{IsReadable, IsRead, libcapio_read-IsRead, IsRead-stop, IsRead-go}
use py_capio.IoWrapper.{IoWrapper, received, count, readline_loop}
use py_capio.IoWrapper.Lines.{line_of, rest_of, line_of-found, line_of-not_found, last_line}

module _ (K : Capio) (remaining : K.World → Bytes) where
  -- What the wrapper has still to deliver: its buffer, then the bytes before the descriptor.
  abbrev pub pending : IoWrapper → K.World → Bytes
  pending self w = self.buffer ++ remaining w

  -- The result `r` is the first line behind `out`, and the rest of the stream is pending.
  abbrev pub IsLineRead :
      Bytes → IoWrapper → K.World → Option (Bytes × IoWrapper × K.World) → Type 0
  IsLineRead out self w r =
      (b : Bytes) × (w' : K.World) × (r
        ≡ some (out ++ line_of (pending self w), record self { buffer = b }, w'))
      × (b ++ remaining w' ≡ rest_of (pending self w))

  pub received-stored :
      (size : ℕ) (w : K.World) (r : Transfer × K.World)
      → IsRead K remaining size w r
      → received (count r.0.result) size r.0.stored ≡ r.0.stored
  unfolding received
  received-stored size w r h = rw h.counted (resized-overwrite r.0.stored (replicate size 0))

  joined : (out b : Bytes) → (if is_empty b then out else out ++ b) ≡ out ++ b
  joined out [] = sym (append-nil out)
  joined out (x ∷ b) = refl

  -- One round of the loop, where the buffer has no newline and the read gave something.
  round :
      (out b s r r' : Bytes)
      → find 10 b ≡ none
      → r ≡ s ++ r'
      → ((if is_empty b then out else out ++ b) ++ line_of (s ++ r') ≡ out ++ line_of (b ++ r))
        × (rest_of (s ++ r') ≡ rest_of (b ++ r))
  round out b s r r' h e = (
    rw (joined out b, (line_of-not_found b r h).0, e) (append_assoc out b _),
    rw ((line_of-not_found b r h).1, e),
  )

  -- The rest of a round, after the buffer has been searched in vain: `again` is the loop.
  after_read :
      (again : Bytes → IoWrapper → K.World → Option (Bytes × IoWrapper × K.World)) (out : Bytes)
      (self : IoWrapper) (w : K.World) (r : Transfer × K.World)
      → IsRead K remaining self.chunk_size w r
      → 0 < self.chunk_size
      → find 10 self.buffer ≡ none
      → ((out' b : Bytes) (w' : K.World)
          → length (remaining w') < length (remaining w)
          → IsLineRead out'
              (record self { buffer = b })
              w'
              (again out' (record self { buffer = b }) w'))
      → let out' = if is_empty self.buffer then out else out ++ self.buffer in
        let b = received (count r.0.result) self.chunk_size r.0.stored in
        IsLineRead out self w (
          if is_positive r.0.result
          then again out' (record self { buffer = b }) r.1
          else some (out', record self { buffer = [] }, r.1))
  after_read again out self w r h c e ih = elim (Bool-cases (is_positive r.0.result)) [
    | inl p ↦
        let out' = if is_empty self.buffer then out else out ++ self.buffer in
        let b = received (count r.0.result) self.chunk_size r.0.stored in
        let (b', w', line, rest) = ih out' b r.1 (IsRead-go K remaining self.chunk_size w r h p) in
        let same : b ≡ r.0.stored = received-stored self.chunk_size w r h in
        let next = round out self.buffer r.0.stored (remaining w) (remaining r.1) e h.in_order in
        rw p (
          b',
          w',
          line
              ∙ ap (λ l. some (l, record self { buffer = b' }, w'))
                  (ap (λ s. out' ++ line_of (s ++ remaining r.1)) same ∙ next.0),
          rest ∙ ap (λ s. rest_of (s ++ remaining r.1)) same ∙ next.1,
        )
    | inr p ↦
        let stop = IsRead-stop K remaining self.chunk_size w r h c p in
        let last = last_line self.buffer (remaining w) e stop.1 in
        rw p (
          [],
          r.1,
          ap (λ l. some (l, record self { buffer = [] }, r.1))
              (joined out self.buffer ∙ ap (λ l. out ++ l) (sym last.0)),
          stop.2 ∙ sym last.1,
        )
  ]

  pub readline_loop-IsLineRead :
      (fuel : ℕ) (out : Bytes) (self : IoWrapper) (w : K.World)
      → IsReadable K self.file_descriptor remaining
      → 0 < self.chunk_size
      → length (remaining w) < fuel
      → IsLineRead out self w (readline_loop K fuel out self w)
  unfolding readline_loop
  readline_loop-IsLineRead zero out self w R c h = elim h [ ]
  readline_loop-IsLineRead (suc fuel) out self w R c h = elim (Option-cases (find 10 self.buffer)) [
    | inr (nl, e) ↦
        let found = line_of-found self.buffer (remaining w) nl e in
        rw (e, readline_loop) (drop (suc nl) self.buffer, w, rw found.0, sym found.1)
    | inl e ↦
        rw (e, readline_loop)
          (after_read (readline_loop K fuel) out self w (libcapio_read K fd size w)
            (libcapio_read-IsRead K fd remaining R size w) c e
            (λ out' b w' less.
              readline_loop-IsLineRead fuel out' (record self { buffer = b }) w' R c (omega arith)))
  ]
    where
      open self use {file_descriptor as fd, chunk_size as size}
