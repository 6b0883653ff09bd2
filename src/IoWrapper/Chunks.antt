-- ===== src/IoWrapper/Chunks.antt =====
-- A client that reads a file by sizes, `read(n)` again and again (`IOWrapper::read`,
-- include/IOWrapper.hpp).
use py_capio.Base.{
  ℕ, ◌≤◌, ◌<◌, ◌≡◌, refl, sym, ap, ◌∙◌, ℤ, pos, Bytes, Option, none, some, List, [], ◌∷◌, ◌++◌, map,
  append_assoc, length, arith, Outcome, ok, raised, undefined, max_size,
}
use py_capio.Posix.{Capio, libcapio_read}
use py_capio.Posix.Laws.{IsReadable, IsRead, libcapio_read-IsRead}
use py_capio.IoWrapper.{IoWrapper, IoMode, ReturnType, wrap, read}
use py_capio.IoWrapper.Lines.{concat}
use py_capio.IoWrapper.ReadSized.{read-append}

-- Sizes that `read` takes as they are.
abbrev pub AreSizes : List ℕ → Type 0
AreSizes [] = Unit
AreSizes (n ∷ ns) = (0 < n) × (n ≤ max_size) × AreSizes ns

-- The parts fit their sizes, and none is empty before the end: `rest` is what follows the parts.
abbrev pub Fit : List Bytes → List ℕ → Bytes → Type 0
Fit [] [] rest = Unit
Fit [] (n ∷ ns) rest = ⊥
Fit (p ∷ ps) [] rest = ⊥
Fit (p ∷ ps) (n ∷ ns) rest = (length p ≤ n) × (p ≡ [] → concat ps ++ rest ≡ []) × Fit ps ns rest

module _ (K : Capio) (fuel : ℕ) (mode : IoMode) where
  abbrev behind :
      ReturnType
      → Option (Outcome (List ReturnType) × IoWrapper × K.World)
      → Option (Outcome (List ReturnType) × IoWrapper × K.World)
  behind r none = none
  behind r (some (ok rs, self, w)) = some (ok (r ∷ rs), self, w)
  behind r (some (raised e, self, w)) = some (raised e, self, w)
  behind r (some (undefined, self, w)) = some (undefined, self, w)

  -- The results of a row of reads; an exception ends it.
  pub chunks :
      List ℕ → IoWrapper → K.World → Option (Outcome (List ReturnType) × IoWrapper × K.World)
  chunks [] self w = some (ok [], self, w)
  chunks (n ∷ ns) self w = elim (read K fuel mode (pos n) self w) [
    | none ↦ none
    | some (ok r, self', w') ↦ behind r (chunks ns self' w')
    | some (raised e, self', w') ↦ some (raised e, self', w')
    | some (undefined, self', w') ↦ some (undefined, self', w')
  ]

  module _ (remaining : K.World → Bytes) where
    answered :
        (fd : ℤ) (n : ℕ) (w : K.World)
        → IsRead K remaining n w (libcapio_read K fd n w)
        → libcapio_read K fd n w ≡ (
          record {
            result = pos (length (libcapio_read K fd n w).0.stored);
            stored = (libcapio_read K fd n w).0.stored;
          },
          (libcapio_read K fd n w).1,
        )
    answered fd n w h = λ i. (
      record { result = h.counted i; stored = (libcapio_read K fd n w).0.stored },
      (libcapio_read K fd n w).1,
    )

    -- On a readable descriptor, with nothing buffered, a row of `read(n)` with positive sizes, none
    -- more than a string can hold, returns a part for each that is no longer than asked for; the
    -- parts are what was pending, in order, followed by what is pending then, and only at the end
    -- of it is a part empty. The wrapper is as before.
    pub chunks-Fit :
        (ns : List ℕ) (self : IoWrapper) (w : K.World)
        → IsReadable K self.file_descriptor remaining
        → self.buffer ≡ []
        → AreSizes ns
        → (ps : List Bytes) × (w' : K.World) × (chunks ns self w
            ≡ some (ok (map (wrap mode) ps), self, w'))
          × (concat ps ++ remaining w' ≡ remaining w)
          × Fit ps ns (remaining w')
    unfolding chunks
    chunks-Fit [] self w R empty sizes = ([], w, refl, refl, tt)
    chunks-Fit (n ∷ ns) self w R empty (positive, fits, sizes) =
        let r = libcapio_read K self.file_descriptor n w in
        let h = libcapio_read-IsRead K self.file_descriptor remaining R n w in
        let (ps, w', e, parts, fit) = chunks-Fit ns self r.1 R empty sizes in
        let one =
          read-append K fuel mode n self w r.1 r.0.stored positive fits
            (answered self.file_descriptor n w h) (omega (arith, ap length empty, h.within)) in
        let step : read K fuel mode (pos n) self w ≡ some (ok (wrap mode r.0.stored), self, r.1) =
          one ∙ (λ i.
            some (
              ok (wrap mode (empty i ++ r.0.stored)),
              record self { buffer = sym empty i },
              r.1,
            )) in
        (
          r.0.stored ∷ ps,
          w',
          rw (step, chunks, e),
          append_assoc r.0.stored (concat ps) (remaining w')
              ∙ ap (λ s. r.0.stored ++ s) parts
              ∙ sym h.in_order,
          (
            h.within,
            (λ none_stored.
                parts
                ∙ ap (λ s. s ++ remaining r.1) (sym none_stored)
                ∙ sym h.in_order
                ∙ h.at_end none_stored positive),
            fit,
          ),
        )
