-- ===== src/Scandir/Listing.antt =====
-- A loop over a `ScandirIteratorWrapper` (src/ScandirIteratorWrapper.cpp), on a directory that is served
-- and on one whose reads fail; closing.
use py_capio.Base.{
  ℕ, zero, suc, ◌<◌, ◌≡◌, ◌≢◌, refl, sym, ap, ◌∙◌, ℤ, negsuc, true, false, Option, none, some, List,
  [], ◌∷◌, ◌++◌, map, append-nil, append_assoc, length, arith, Outcome, ok,
}
use py_capio.Posix.{Capio, Dirent, libcapio_close}
use py_capio.Posix.Laws.{eq_ℤ_ne}
use py_capio.Scandir.{ScandirIteratorWrapper, CapioDirEntry, new_entry, next, collect, close}
use py_capio.Scandir.Laws.{visible, IsDirectory, IsNext, next-IsNext, next-entry, readdir-ok}

module _ (K : Capio) (remaining : K.World → List Dirent) where
  abbrev IsScanned :
      List CapioDirEntry
      → ScandirIteratorWrapper
      → K.World
      → Option (Outcome (List CapioDirEntry) × ScandirIteratorWrapper × K.World)
      → Type 0
  IsScanned found self w r =
      (w' : K.World) × (r
        ≡ some (
          ok (found ++ map (new_entry self.path) (visible (remaining w))),
          record self { finished = true },
          w',
        ))
      × (remaining w' ≡ [])

  collect-IsScanned :
      (rounds fuel : ℕ) (found : List CapioDirEntry) (self : ScandirIteratorWrapper) (w : K.World)
      (es : List Dirent)
      → IsDirectory K remaining self.file_descriptor
      → self.finished ≡ false
      → length (remaining w) < fuel
      → length (remaining w) < rounds
      → visible (remaining w) ≡ es
      → IsNext K remaining es self w (next K fuel self w)
      → IsScanned found self w (collect K rounds fuel found self w)
  unfolding collect
  collect-IsScanned zero fuel found self w es D fresh enough h v n = absurd (omega arith)
  collect-IsScanned (suc rounds) fuel found self w [] D fresh enough h v (w', e, ended) =
      rw (e, collect, v)
        (
          w',
          ap (λ l. some (ok l, record self { finished = true }, w')) (sym (append-nil found)),
          ended,
        )
  collect-IsScanned (suc rounds) fuel found self w (d ∷ ds) D fresh enough h v (w', e, rest, less) =
      let entry = new_entry self.path d in
      let (w'', e', ended) =
        collect-IsScanned rounds fuel (found ++ (entry ∷ [])) self w' (visible (remaining w')) D
          fresh (omega arith) (omega arith) refl
          (next-IsNext K remaining fuel self w' (remaining w') D refl (omega arith) fresh) in
      rw (e, collect, v)
        (
          w'',
          e'
              ∙ ap (λ l. some (ok l, record self { finished = true }, w''))
                  (append_assoc found (entry ∷ []) _
                    ∙ ap (λ l. found ++ (entry ∷ map (new_entry self.path) l)) rest),
          ended,
        )

  -- On a directory that CAPIO serves, with an iterator that is not finished, and more rounds and
  -- fuel than entries remain, a loop over the iterator collects the remaining entries in order,
  -- without "." and "..", and ends with the iterator finished and no entry left.
  pub collect-visible :
      (rounds fuel : ℕ) (self : ScandirIteratorWrapper) (w : K.World)
      → IsDirectory K remaining self.file_descriptor
      → self.finished ≡ false
      → length (remaining w) < fuel
      → length (remaining w) < rounds
      → (w' : K.World) × (collect K rounds fuel [] self w
          ≡ some (
            ok (map (new_entry self.path) (visible (remaining w))),
            record self { finished = true },
            w',
          ))
        × (remaining w' ≡ [])
  collect-visible rounds fuel self w D fresh enough h =
      collect-IsScanned rounds fuel [] self w (visible (remaining w)) D fresh enough h refl
        (next-IsNext K remaining fuel self w (remaining w) D refl enough fresh)

-- A directory whose reads fail, by a negative result other than the skip code, with nothing stored.
pub record IsBroken (K : Capio) (fd : ℤ) : Type 0 where
  pub code : ℕ
  pub reported : negsuc code ≢ K.request_skip
  pub failing :
      (w : K.World)
      → ((K.getdents_handler fd w).0 ≡ negsuc code) × ((K.getdents_handler fd w).1 ≡ none)

module _ (K : Capio) where
  -- The error is taken for an entry with an empty name, and the iteration goes on.
  pub next_failing :
      (fuel : ℕ) (self : ScandirIteratorWrapper) (w : K.World)
      → IsBroken K self.file_descriptor
      → self.finished ≡ false
      → next K (suc fuel) self w
        ≡ some (
          ok (new_entry self.path (record { d_name = []; d_ino = 0; d_type = 0 })),
          self,
          (K.getdents_handler self.file_descriptor w).2,
        )
  next_failing fuel self w B fresh =
      next-entry K (λ _. []) fuel self w _ fresh (negsuc B.code) none
        (readdir-ok K (λ _. []) self.file_descriptor w (negsuc B.code) none (B.failing w).0
          (B.failing w).1 B.reported)
        (λ q. cc) refl

  -- On a directory whose reads answer a negative number other than the skip code and store nothing,
  -- a loop over an unfinished iterator does not end, whatever the rounds and the fuel.
  pub collect_failing :
      (rounds fuel : ℕ) (found : List CapioDirEntry) (self : ScandirIteratorWrapper) (w : K.World)
      → IsBroken K self.file_descriptor
      → self.finished ≡ false
      → collect K rounds fuel found self w ≡ none
  unfolding collect
  collect_failing zero fuel found self w B fresh = refl
  collect_failing (suc rounds) zero found self w B fresh = refl
  collect_failing (suc rounds) (suc fuel) found self w B fresh =
      rw (next_failing fuel self w B fresh, collect)
        (collect_failing rounds (suc fuel) _ self _ B fresh)

  -- The first `close` of an iterator with a descriptor other than -1 closes it and sets it to -1; a
  -- second one does nothing.
  pub close_twice :
      (self : ScandirIteratorWrapper) (w w' : K.World)
      → self.file_descriptor ≢ negsuc 0
      → (close K self w ≡ (
        record self { file_descriptor = negsuc 0 },
        (libcapio_close K self.file_descriptor w).1,
      ))
        × (close K (close K self w).0 w' ≡ ((close K self w).0, w'))
  unfolding close
  close_twice self w w' h =
      let e : close K self w ≡ (
        record self { file_descriptor = negsuc 0 },
        (libcapio_close K self.file_descriptor w).1,
      ) =
        ground (arith, eq_ℤ_ne self.file_descriptor (negsuc 0) h) in
      (
        e,
        ap (λ (p : ScandirIteratorWrapper × K.World). close K p.0 w') e
            ∙ ap (λ (p : ScandirIteratorWrapper × K.World). (p.0, w')) (sym e),
      )
