-- ===== src/PyModule/Directory/Listing.antt =====
-- A row of calls of a directory iterator (src/pycapio.cpp, lines 80-92), and a `with` block over it.
use py_capio.Base.{
  ℕ, zero, suc, ◌≤◌, ◌<◌, ◌≡◌, ◌≢◌, refl, ap, ◌∙◌, subst, Bool, true, false, some, List, [], ◌∷◌,
  map, length, arith, if◌then◌else◌, Bool-cases, inl, inr, Outcome, ok, raised, stop_iteration,
  negsuc,
}
use py_capio.Posix.{Capio, Dirent, libcapio_close}
use py_capio.Scandir
use py_capio.Scandir.{ScandirIteratorWrapper, CapioDirEntry, new_entry}
use py_capio.Scandir.Laws.{visible, IsDirectory, IsNext, next_finished, next-IsNext}
use py_capio.Scandir.Listing.{close_twice}
use py_capio.PyModule.Directory.{
  ScanCall, iter_scan, next_scan, enter_scan, ScanValue, same_iterator, entry, invoke_scan,
  scan_session, with_scan,
}

-- The calls that leave the iterator open.
pub data ScanAsk : Type 0 where
  asks_iter asks_next asks_enter : ScanAsk

abbrev pub as_scan_call : ScanAsk → ScanCall
as_scan_call asks_iter = iter_scan
as_scan_call asks_next = next_scan
as_scan_call asks_enter = enter_scan

-- The answers of a list of entries that is gone through once.
abbrev pub listed : ScanAsk → List CapioDirEntry → Outcome ScanValue × List CapioDirEntry
listed asks_iter es = (ok same_iterator, es)
listed asks_enter es = (ok same_iterator, es)
listed asks_next [] = (raised stop_iteration, [])
listed asks_next (e ∷ es) = (ok (entry e), es)

unfoldable pub listing :
    List ScanAsk → List CapioDirEntry → List (Outcome ScanValue) × List CapioDirEntry
listing [] es = ([], es)
listing (ask ∷ asks) es =
    let (a, es') = listed ask es in let (more, es'') = listing asks es' in (a ∷ more, es'')

module _ (K : Capio) (remaining : K.World → List Dirent) where
  -- What the iterator has still to show.
  abbrev pub to_show : ScandirIteratorWrapper → K.World → List CapioDirEntry
  to_show self w = if self.finished then [] else map (new_entry self.path) (visible (remaining w))

  module _ (fuel : ℕ) where
    abbrev Kept : ScandirIteratorWrapper → K.World → ScanAsk → Type 0
    Kept self w ask =
        let x = listed ask (to_show self w) in
        (over : Bool) × (w' : K.World) × (invoke_scan K fuel (as_scan_call ask) self w
          ≡ some (x.0, record self { finished = over }, w'))
        × (to_show (record self { finished = over }) w' ≡ x.1)
        × (length (remaining w') ≤ length (remaining w))

    next-Kept :
        (self : ScandirIteratorWrapper) (w : K.World) (es : List Dirent)
        → self.finished ≡ false
        → length (remaining w) < fuel
        → visible (remaining w) ≡ es
        → IsNext K remaining es self w (Scandir.next K fuel self w)
        → Kept self w asks_next
    unfolding invoke_scan
    next-Kept self w [] fresh enough v (w', e, left) = (
      true,
      w',
      ground (arith, e, fresh, v),
      ground (arith, fresh, v),
      omega (arith, ap length left),
    )
    next-Kept self w (d ∷ ds) fresh enough v (w', e, left, less) = (
      self.finished,
      w',
      ground (arith, e, fresh, v),
      ground (arith, fresh, v, left),
      omega arith,
    )

    finished-Kept :
        (n : ℕ) (self : ScandirIteratorWrapper) (w : K.World)
        → self.finished ≡ true
        → length (remaining w) < n
        → n ≡ fuel
        → Kept self w asks_next
    unfolding invoke_scan
    finished-Kept zero self w over enough e = absurd (omega arith)
    finished-Kept (suc n) self w over enough e = (
      self.finished,
      w,
      rw (← e) (ground (arith, next_finished K (λ _. []) n self w over, over)),
      ground (arith, over),
      omega arith,
    )

    invoke_scan-Kept :
        (ask : ScanAsk) (self : ScandirIteratorWrapper) (w : K.World)
        → IsDirectory K remaining self.file_descriptor
        → length (remaining w) < fuel
        → Kept self w ask
    unfolding invoke_scan
    invoke_scan-Kept asks_iter self w D enough = (self.finished, w, refl, refl, omega arith)
    invoke_scan-Kept asks_enter self w D enough = (self.finished, w, refl, refl, omega arith)
    invoke_scan-Kept asks_next self w D enough = elim (Bool-cases self.finished) [
      | inl over ↦ finished-Kept fuel self w over enough refl
      | inr fresh ↦
          next-Kept self w (visible (remaining w)) fresh enough refl
            (next-IsNext K remaining fuel self w (remaining w) D refl enough fresh)
    ]

    abbrev IsListed :
        List (Outcome ScanValue) × List CapioDirEntry
        → List ScanAsk
        → ScandirIteratorWrapper
        → K.World
        → Type 0
    IsListed (answers, rest) asks self w =
        (over : Bool) × (w' : K.World) × (scan_session K fuel (map as_scan_call asks) self w
          ≡ some (answers, record self { finished = over }, w'))
        × (to_show (record self { finished = over }) w' ≡ rest)

    pub scan_session-listing :
        (asks : List ScanAsk) (self : ScandirIteratorWrapper) (w : K.World)
        → IsDirectory K remaining self.file_descriptor
        → length (remaining w) < fuel
        → IsListed (listing asks (to_show self w)) asks self w
    unfolding scan_session listing
    scan_session-listing [] self w D enough = (self.finished, w, refl, refl)
    scan_session-listing (ask ∷ asks) self w D enough =
        let (over, w', e, left, less) = invoke_scan-Kept ask self w D enough in
        let self' = record self { finished = over } in
        let (over', w'', e', left') =
          subst (λ es. IsListed (listing asks es) asks self' w') left
            (scan_session-listing asks self' w' D (omega arith)) in
        (over', w'', rw (e, scan_session, e'), left')

    -- On a directory that CAPIO serves, with a descriptor other than -1, and more fuel than entries
    -- remain, a `with` block over the iterator that asks for the next entry, for the iterator or
    -- enters it again, as often as it likes and going on behind exceptions, is answered as by a
    -- list of the remaining entries without "." and ".." that is gone through once, the end again
    -- and again behind it; the descriptor is closed once, behind the block, and the destructor does
    -- nothing more.
    pub with_scan-listing :
        (asks : List ScanAsk) (self : ScandirIteratorWrapper) (w : K.World)
        → IsDirectory K remaining self.file_descriptor
        → self.file_descriptor ≢ negsuc 0
        → length (remaining w) < fuel
        → (over : Bool) × (w' : K.World) × (with_scan K fuel (map as_scan_call asks) self w
            ≡ some (
              (listing asks (to_show self w)).0,
              record self { file_descriptor = negsuc 0; finished = over },
              (libcapio_close K self.file_descriptor w').1,
            ))
          × (to_show (record self { finished = over }) w' ≡ (listing asks (to_show self w)).1)
    unfolding with_scan invoke_scan
    with_scan-listing asks self w D real enough =
        let (over, w', e, left) = scan_session-listing asks self w D enough in
        let self' = record self { finished = over } in
        let once = Scandir.close K self' w' in
        let (closed, again) = close_twice K self' w' once.1 real in
        (
          over,
          w',
          rw (e, with_scan)
              (ap
                (λ (p : ScandirIteratorWrapper × K.World).
                  some ((listing asks (to_show self w)).0, p.0, p.1))
                (again ∙ closed)),
          left,
        )
