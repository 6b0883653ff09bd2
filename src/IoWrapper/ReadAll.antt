-- ===== src/IoWrapper/ReadAll.antt =====
-- `IOWrapper::read` with the size -1 (include/IOWrapper.hpp): its loop, and a read that fails.
use py_capio.Base.{
  replicate, ltb, false, undefined, ℕ, zero, suc, ◌+◌, ◌-◌, ◌≤◌, ◌<◌, ◌≡◌, refl, sym, ap, ◌∙◌, pos,
  negsuc, to_size, add_size, is_positive, Bytes, Option, some, [], ◌∷◌, ◌++◌, append_assoc,
  append-nil, length, length-append, take, take-append, take-append_le, arith, Bool-cases, inl, inr,
  is_empty, if◌then◌else◌, ok, raised, length_error, max_size, resize, resize_same, resize_cut,
  overwrite,
}
use py_capio.Posix.{Capio, Transfer, libcapio_read}
use py_capio.Posix.Laws.{IsReadable, IsRead, IsRead-go, IsRead-stop, libcapio_read-IsRead}
use py_capio.IoWrapper.{literal_size, IoWrapper, IoMode, wrap, wrap_outcome, read_all_loop, read}
use py_capio.IoWrapper.Readline.{pending}

pub to_size-pos : (n : ℕ) → n ≤ max_size → to_size (pos n) ≡ n
to_size-pos n h = omega arith

pub add_size-pos : (m n : ℕ) → m + n ≤ max_size → add_size m (pos n) ≡ m + n
add_size-pos m n h = omega arith

module _ (K : Capio) (remaining : K.World → Bytes) where
  module _ (size : ℕ) (w : K.World) (r : Transfer × K.World) (h : IsRead K remaining size w r) where
    -- What a round appends to `out_buffer`, whatever `tmp` held.
    appended :
        (tmp : Bytes)
        → length (remaining w) ≤ max_size
        → take (to_size r.0.result) (overwrite r.0.stored tmp) ≡ r.0.stored
    unfolding overwrite
    appended tmp fits =
        ap (λ z. take (to_size z) (overwrite r.0.stored tmp)) h.counted
        ∙ ap (λ n. take n (overwrite r.0.stored tmp))
            (to_size-pos (length r.0.stored)
              (omega (arith, ap length h.in_order, length-append r.0.stored (remaining r.1))))
        ∙ take-append r.0.stored _

    counted :
        (m : ℕ)
        → m + length (remaining w) ≤ max_size
        → add_size m r.0.result ≡ m + length r.0.stored
    counted m fits =
        ap (add_size m) h.counted
        ∙ add_size-pos m (length r.0.stored)
            (omega (arith, ap length h.in_order, length-append r.0.stored (remaining r.1)))

  -- The loop has appended all that remained and counted it, and the descriptor is at its end.
  abbrev IsReadToEnd : Bytes → K.World → Option (Bytes × ℕ × K.World) → Type 0
  IsReadToEnd out w r =
      (w' : K.World) × (r ≡ some (out ++ remaining w, length (out ++ remaining w), w'))
      × (remaining w' ≡ [])

  read_all_loop-IsReadToEnd :
      (fuel : ℕ) (self : IoWrapper) (tmp out : Bytes) (read_size : ℕ) (w : K.World)
      → IsReadable K self.file_descriptor remaining
      → 0 < self.chunk_size
      → length (remaining w) < fuel
      → length out + length (remaining w) ≤ max_size
      → read_size ≡ length out
      → IsReadToEnd out w (read_all_loop K fuel self tmp out read_size w)
  unfolding read_all_loop
  read_all_loop-IsReadToEnd zero self tmp out read_size w R c enough fits e = elim enough [ ]
  read_all_loop-IsReadToEnd (suc fuel) self tmp out read_size w R c enough fits e =
      let r = libcapio_read K self.file_descriptor self.chunk_size w in
      let h = libcapio_read-IsRead K self.file_descriptor remaining R self.chunk_size w in
      let tmp' = overwrite r.0.stored tmp in
      let out' = out ++ take (to_size r.0.result) tmp' in
      let same : out' ≡ out ++ r.0.stored =
        ap (λ s. out ++ s) (appended self.chunk_size w r h tmp (omega arith)) in
      let whole : out' ++ remaining r.1 ≡ out ++ remaining w =
        ap (λ s. s ++ remaining r.1) same
        ∙ append_assoc out r.0.stored (remaining r.1)
        ∙ ap (λ s. out ++ s) (sym h.in_order) in
      let sized : add_size read_size r.0.result ≡ length out' =
        counted self.chunk_size w r h read_size (omega arith)
        ∙ omega (arith, ap length same, length-append out r.0.stored) in
      elim (Bool-cases (is_positive r.0.result)) [
        | inl p ↦
            let less = IsRead-go K remaining self.chunk_size w r h p in
            let (w', e', ended) =
              read_all_loop-IsReadToEnd fuel self tmp' out' (add_size read_size r.0.result) r.1 R c
                (omega arith)
                (omega (
                  arith,
                  ap length whole,
                  length-append out' (remaining r.1),
                  length-append out (remaining w),
                ))
                sized in
            rw p (w', e' ∙ ap (λ s. some (s, length s, w')) whole, ended)
        | inr p ↦
            let stop = IsRead-stop K remaining self.chunk_size w r h c p in
            let all_read : out' ≡ out ++ remaining w =
              sym (append-nil out') ∙ ap (λ s. out' ++ s) (sym stop.2) ∙ whole in
            rw p (
              r.1,
              ap (λ n. some (out', n, r.1)) sized ∙ ap (λ s. some (s, length s, r.1)) all_read,
              stop.2,
            )
      ]

  -- A chunk size within the literal.
  pub read_to_end :
      (fuel : ℕ) (mode : IoMode) (self : IoWrapper) (w : K.World)
      → IsReadable K self.file_descriptor remaining
      → 0 < self.chunk_size
      → length (remaining w) < fuel
      → length (pending K remaining self w) ≤ max_size
      → ltb literal_size self.chunk_size ≡ false
      → (w' : K.World) × (read K fuel mode (negsuc 0) self w
          ≡ some (ok (wrap mode (pending K remaining self w)), record self { buffer = [] }, w'))
        × (remaining w' ≡ [])
  unfolding read
  read_to_end fuel mode self w R c enough fits small =
      let (w', e, ended) =
        read_all_loop-IsReadToEnd fuel self (replicate self.chunk_size 0) self.buffer
          (length self.buffer) w R c enough (omega (arith, length-append self.buffer (remaining w)))
          refl in
      (w', rw (small, read, e, resize_same (pending K remaining self w) fits), ended)

  -- On a readable descriptor, with a positive chunk size, more fuel than bytes remain, and no more
  -- pending bytes than a string can hold: where the chunk size is at most the two bytes of the
  -- literal, `read()` returns all that is pending and leaves nothing; where it is larger, `read()`
  -- has undefined behaviour, as it copies bytes from behind the literal, and nothing has been read.
  pub read-pending :
      (fuel : ℕ) (mode : IoMode) (self : IoWrapper) (w : K.World)
      → IsReadable K self.file_descriptor remaining
      → 0 < self.chunk_size
      → length (remaining w) < fuel
      → length (pending K remaining self w) ≤ max_size
      → (w' : K.World) × (read K fuel mode (negsuc 0) self w
          ≡ some (
              if ltb literal_size self.chunk_size
              then (undefined, self, w)
              else (ok (wrap mode (pending K remaining self w)), record self { buffer = [] }, w')))
        × (remaining w' ≡ (if ltb literal_size self.chunk_size then remaining w else []))
  unfolding read
  read-pending fuel mode self w R c enough fits =
      elim (Bool-cases (ltb literal_size self.chunk_size)) [
        | inl large ↦
            (w, ground (arith, large), ap (λ b. if b then remaining w else []) (sym large))
        | inr small ↦
            let (w', e, ended) = read_to_end fuel mode self w R c enough fits small in
            (
              w',
              e
                  ∙ ap
                      (λ b. some (
                        if b then (undefined, self, w) else (
                          ok (wrap mode (pending K remaining self w)),
                          record self { buffer = [] },
                          w',
                        )))
                      (sym small),
              ended ∙ ap (λ b. if b then remaining w else []) (sym small),
            )
      ]

-- `read_size += -1` and the resize after it.
resize_failing :
    (mode : IoMode) (b more : Bytes)
    → length b ≤ max_size
    → wrap_outcome mode (resize (add_size (length b) (negsuc 0)) (b ++ more))
      ≡ (if is_empty b then raised length_error else ok (wrap mode (take (length b - 1) b)))
unfolding wrap_outcome resize
resize_failing mode [] more fits = refl
resize_failing mode (x ∷ b) more fits =
    let back : add_size (length (x ∷ b)) (negsuc 0) ≡ length (x ∷ b) - 1 = omega arith in
    ap (λ n. wrap_outcome mode (resize n (x ∷ b ++ more))) back
    ∙ ap (wrap_outcome mode) (
        resize_cut (length (x ∷ b) - 1) (x ∷ b ++ more) (omega (arith, length-append b more))
          (omega arith)
        ∙ ap ok (take-append_le (length (x ∷ b) - 1) (x ∷ b) more (omega arith)))

-- Where the chunk size is at most two, the first read of `read()` answers -1 and stores nothing,
-- and a string can hold the buffer, the failure is not reported: the last buffered byte is dropped
-- and the others are returned, or, where none is buffered, `std::length_error` is raised.
pub read_failing :
    (K : Capio) (fuel : ℕ) (mode : IoMode) (self : IoWrapper) (w w' : K.World)
    → libcapio_read K self.file_descriptor self.chunk_size w
      ≡ (record { result = negsuc 0; stored = [] }, w')
    → length self.buffer ≤ max_size
    → ltb literal_size self.chunk_size ≡ false
    → read K (suc fuel) mode (negsuc 0) self w
      ≡ some (
        (if is_empty self.buffer
            then raised length_error
            else ok (wrap mode (take (length self.buffer - 1) self.buffer))),
        record self { buffer = [] },
        w',
      )
unfolding read overwrite
read_failing K fuel mode self w w' e fits small =
    rw (small, read, e)
      (ap (λ o. some (o, record self { buffer = [] }, w'))
        (resize_failing mode self.buffer (take (to_size (negsuc 0)) (replicate self.chunk_size 0))
          fits))
