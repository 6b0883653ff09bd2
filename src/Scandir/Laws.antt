-- ===== src/Scandir/Laws.antt =====
-- `ScandirIteratorWrapper::next` (src/ScandirIteratorWrapper.cpp) on a directory that CAPIO serves.
use py_capio.Base.{
  ℕ, zero, suc, ◌<◌, ◌≡◌, ◌≢◌, refl, ap, ◌∙◌, ℤ, pos, eq_ℤ, true, false, Option, some, List, [],
  ◌∷◌, length, arith, Bool-cases, inl, inr, if◌then◌else◌, Outcome, ok, raised, stop_iteration,
}
use py_capio.Posix.{Capio, Dirent, libcapio_readdir}
use py_capio.Posix.Laws.{eq_ℤ_ne}
use py_capio.Scandir.{
  ScandirIteratorWrapper, CapioDirEntry, new_entry, is_dots, entry_or_zero, next,
}

-- The entries that the iterator shows.
pub visible : List Dirent → List Dirent
visible [] = []
visible (d ∷ ds) = if is_dots d.d_name then visible ds else d ∷ visible ds

module _ (K : Capio) (remaining : K.World → List Dirent) where
  -- The answer of a read with these entries before the descriptor: the next one and a positive
  -- result, or 0 at the end.
  abbrev pub IsReaddir : List Dirent → ℤ × Option Dirent × K.World → Type 0
  IsReaddir [] (result, entry, w') = (result ≡ pos 0) × (remaining w' ≡ [])
  IsReaddir (d ∷ ds) (result, entry, w') =
      ((n : ℕ) × (result ≡ pos (suc n))) × (entry ≡ some d) × (remaining w' ≡ ds)

  -- A directory as include/libcapio.hpp describes it, served by CAPIO. The skip code is no count.
  pub record IsDirectory (fd : ℤ) : Type 0 where
    pub skip_negative : (n : ℕ) → pos n ≢ K.request_skip
    pub served : (w : K.World) → IsReaddir (remaining w) (K.getdents_handler fd w)

  pub readdir-ok :
      (fd : ℤ) (w : K.World) (z : ℤ) (o : Option Dirent)
      → (K.getdents_handler fd w).0 ≡ z
      → (K.getdents_handler fd w).1 ≡ o
      → z ≢ K.request_skip
      → libcapio_readdir K fd w ≡ (ok (z, o), (K.getdents_handler fd w).2)
  unfolding libcapio_readdir
  readdir-ok fd w z o e f h =
      let kept : eq_ℤ (K.getdents_handler fd w).0 K.request_skip ≡ false =
        ap (λ r. eq_ℤ r K.request_skip) e ∙ eq_ℤ_ne z K.request_skip h in
      rw kept (λ i. (ok (e i, f i), (K.getdents_handler fd w).2))

  -- The result of `next` where these entries are still to be shown.
  abbrev pub IsNext :
      List Dirent
      → ScandirIteratorWrapper
      → K.World
      → Option (Outcome CapioDirEntry × ScandirIteratorWrapper × K.World)
      → Type 0
  IsNext [] self w r =
      (w' : K.World) × (r ≡ some (raised stop_iteration, record self { finished = true }, w'))
      × (remaining w' ≡ [])
  IsNext (d ∷ ds) self w r =
      (w' : K.World) × (r ≡ some (ok (new_entry self.path d), self, w'))
      × (visible (remaining w') ≡ ds)
      × (length (remaining w') < length (remaining w))

  -- A round that shows nothing leaves it to the next one.
  IsNext-later :
      (es : List Dirent) (self : ScandirIteratorWrapper) (w w' : K.World)
      (r : Option (Outcome CapioDirEntry × ScandirIteratorWrapper × K.World))
      → length (remaining w') < length (remaining w)
      → IsNext es self w' r
      → IsNext es self w r
  IsNext-later [] self w w' r h n = n
  IsNext-later (d ∷ ds) self w w' r h (w'', e, rest, less) = (w'', e, rest, omega arith)

  module _ (fuel : ℕ) (self : ScandirIteratorWrapper) (w w' : K.World)
      (fresh : self.finished ≡ false) where
    next-end :
        (o : Option Dirent)
        → libcapio_readdir K self.file_descriptor w ≡ (ok (pos 0, o), w')
        → next K (suc fuel) self w
          ≡ some (raised stop_iteration, record self { finished = true }, w')
    unfolding next
    next-end o e = ground arith

    next-dots :
        (n : ℕ) (d : Dirent)
        → libcapio_readdir K self.file_descriptor w ≡ (ok (pos (suc n), some d), w')
        → is_dots d.d_name ≡ true
        → next K (suc fuel) self w ≡ next K fuel self w'
    unfolding next
    next-dots n d e h = ground arith

    pub next-entry :
        (z : ℤ) (o : Option Dirent)
        → libcapio_readdir K self.file_descriptor w ≡ (ok (z, o), w')
        → z ≢ pos 0
        → is_dots (entry_or_zero o).d_name ≡ false
        → next K (suc fuel) self w ≡ some (ok (new_entry self.path (entry_or_zero o)), self, w')
    unfolding next
    next-entry z o e nz h = ground (arith, eq_ℤ_ne z (pos 0) nz)

  pub next_finished :
      (fuel : ℕ) (self : ScandirIteratorWrapper) (w : K.World)
      → self.finished ≡ true
      → next K (suc fuel) self w ≡ some (raised stop_iteration, self, w)
  unfolding next
  next_finished fuel self w over = ground arith

  pub next-IsNext :
      (fuel : ℕ) (self : ScandirIteratorWrapper) (w : K.World) (es : List Dirent)
      → IsDirectory self.file_descriptor
      → remaining w ≡ es
      → length es < fuel
      → self.finished ≡ false
      → IsNext (visible es) self w (next K fuel self w)
  unfolding visible
  next-IsNext zero self w es D e h fresh = absurd (omega arith)
  next-IsNext (suc fuel) self w [] D e h fresh =
      let (ended, rest) = rw e at (D.served w) in
      let read = readdir-ok self.file_descriptor w (pos 0) _ ended refl (D.skip_negative 0) in
      rw (next-end fuel self w _ fresh _ read)
        ((K.getdents_handler self.file_descriptor w).2, refl, rest)
  next-IsNext (suc fuel) self w (d ∷ ds) D e h fresh =
      let ((n, counted), entry, rest) = rw e at (D.served w) in
      let w' = (K.getdents_handler self.file_descriptor w).2 in
      let read =
        readdir-ok self.file_descriptor w (pos (suc n)) (some d) counted entry
          (D.skip_negative (suc n)) in
      let later = next-IsNext fuel self w' ds D rest (omega arith) fresh in
      elim (Bool-cases (is_dots d.d_name)) [
        | inl hidden ↦
            rw (hidden, next-dots fuel self w w' fresh n d read hidden)
              (IsNext-later (visible ds) self w w' _ (omega (arith, ap length e, ap length rest))
                later)
        | inr shown ↦
            rw (shown, next-entry fuel self w w' fresh (pos (suc n)) (some d) read (λ q. cc) shown)
              (w', refl, ap visible rest, omega (arith, ap length e, ap length rest))
      ]
