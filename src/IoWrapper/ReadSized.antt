-- ===== src/IoWrapper/ReadSized.antt =====
-- `IOWrapper::read` with a size other than -1 (include/IOWrapper.hpp): the string that it reads into.
use py_capio.Base.{
  ℕ, ◌+◌, ◌-◌, ◌≤◌, ◌<◌, ◌≡◌, refl, sym, ap, ◌∙◌, ◌≢◌, pos, add_size, Bytes, some, [], ◌∷◌, ◌++◌,
  append_assoc, length, length-append, length-replicate, length-take_le, take, drop, replicate,
  take-append, drop-append, arith, leb, Bool-cases, inl, inr, ok, undefined, max_size, resize,
  resize_cut, resize_fill, overwrite,
}
use py_capio.Posix.{Capio, libcapio_read}
use py_capio.IoWrapper.{
  IoWrapper, IoMode, wrap, wrap_outcome, store_at, read_sized, read_into, read,
}
use py_capio.IoWrapper.ReadAll.{to_size-pos, add_size-pos}

-- Bytes stored behind the `b` of a string that was filled up to `n` bytes.
store_at_fits :
    (b stored : Bytes) (n : ℕ)
    → length b + length stored ≤ n
    → (rest : Bytes) × (store_at (length b) stored (b ++ replicate (n - length b) 0)
        ≡ ok (b ++ (stored ++ rest)))
unfolding store_at overwrite
store_at_fits b [] n h = (replicate (n - length b) 0, refl)
store_at_fits b (x ∷ stored) n h = (
  drop (length (x ∷ stored)) (replicate (n - length b) 0),
  ground (
    arith,
    length-append b (replicate (n - length b) 0),
    length-replicate {A = ℕ} (n - length b) 0,
    take-append b (replicate (n - length b) 0),
    drop-append b (replicate (n - length b) 0),
  ),
)

store_at_overflow :
    (offset : ℕ) (stored buf : Bytes)
    → stored ≢ []
    → length buf < offset + length stored
    → store_at offset stored buf ≡ undefined
unfolding store_at
store_at_overflow offset [] buf h o = absurd (h refl)
store_at_overflow offset (x ∷ stored) buf h o = ground arith

-- The cut to the bytes that count.
resize_filled :
    (b stored rest : Bytes) (n : ℕ)
    → length b + length stored ≤ n
    → n ≤ max_size
    → resize (add_size (length b) (pos (length stored))) (b ++ (stored ++ rest)) ≡ ok (b ++ stored)
resize_filled b stored rest n h fits =
    ap (λ m. resize m (b ++ (stored ++ rest)))
      (add_size-pos (length b) (length stored) (omega arith) ∙ sym (length-append b stored))
    ∙ ap (resize (length (b ++ stored))) (sym (append_assoc b stored rest))
    ∙ resize_cut (length (b ++ stored)) ((b ++ stored) ++ rest)
        (omega (arith, length-append (b ++ stored) rest)) (omega (arith, length-append b stored))
    ∙ ap ok (take-append (b ++ stored) rest)

length-resized :
    (n : ℕ) (b : Bytes) → n ≤ max_size → (buf : Bytes) × (resize n b ≡ ok buf) × (length buf ≡ n)
length-resized n b fits = elim (Bool-cases (leb n (length b))) [
  | inl h ↦ (take n b, resize_cut n b (ground arith) fits, length-take_le n b (ground arith))
  | inr h ↦ (
    b ++ replicate (n - length b) 0,
    resize_fill n b (ground arith) fits,
    ground (
      arith,
      length-append b (replicate (n - length b) 0),
      length-replicate {A = ℕ} (n - length b) 0,
    ),
  )
]

module _ (K : Capio) (fuel : ℕ) (mode : IoMode) (n : ℕ) (self : IoWrapper) (w w' : K.World)
    (stored : Bytes) (some_bytes : 0 < n) (fits : n ≤ max_size)
    (answered : libcapio_read K self.file_descriptor n w
      ≡ (record { result = pos (length stored); stored = stored }, w')) where
  -- A read of a size other than 0 and -1.
  read-read_into :
      read K fuel mode (pos n) self w
      ≡ some (
          read_into K mode n
            (length self.buffer)
            (record self { buffer = [] })
            w
            (resize n self.buffer))
  unfolding read read_sized
  read-read_into = ground (arith, to_size-pos n fits)

  -- For a size `n` that is positive and no more than a string can hold, and a read that answers
  -- with a count and as many bytes: if the buffered bytes and those read are at most `n`, `read(n)`
  -- returns them, the buffered ones first, and empties the buffer.
  pub read-append :
      length self.buffer + length stored ≤ n
      → read K fuel mode (pos n) self w
        ≡ some (ok (wrap mode (self.buffer ++ stored)), record self { buffer = [] }, w')
  unfolding read_into wrap_outcome
  read-append h =
      let (rest, e) = store_at_fits self.buffer stored n h in
      read-read_into
      ∙ rw (
        resize_fill n self.buffer (omega arith) fits,
        read_into,
        answered,
        e,
        answered,
        resize_filled self.buffer stored rest n h fits,
      )

  -- For a size `n` that is positive and no more than a string can hold, and a read that answers
  -- with a count and as many bytes, at least one: if the buffered bytes and those read are more
  -- than `n`, `read(n)` has undefined behaviour, as bytes are stored behind the end of the string.
  pub read-undefined :
      stored ≢ []
      → n < length self.buffer + length stored
      → read K fuel mode (pos n) self w ≡ some (undefined, record self { buffer = [] }, w')
  unfolding read_into wrap_outcome
  read-undefined h o =
      let (buf, e, len) = length-resized n self.buffer fits in
      read-read_into
      ∙ rw (
        e,
        read_into,
        answered,
        store_at_overflow (length self.buffer) stored buf h (omega arith),
      )
