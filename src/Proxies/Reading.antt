-- ===== src/Proxies/Reading.antt =====
-- The proxies of pycapio/__init__.py with what stands behind them: listing a directory, and reading a
-- file that was opened.
use py_capio.Base.{
  c_str, ℕ, ◌<◌, ◌≡◌, refl, ap, pos, Bytes, Bool, true, false, Option, none, some, List, [], ◌∷◌,
  ◌++◌, map, length, arith, ok,
}
use py_capio.Posix.{Capio, Dirent, libcapio_open, libcapio_close}
use py_capio.Posix.Laws.{IsReadable}
use py_capio.IoWrapper.{IoMode, text, binary, wrap, new, IoWrapper, readlines}
use py_capio.IoWrapper.Lines.{lines}
use py_capio.IoWrapper.Readlines.{readlines-lines}
use py_capio.Scandir.{ScandirIteratorWrapper, CapioDirEntry, new_entry, o_rdonly, open_dir, close}
use py_capio.Scandir.Laws.{IsDirectory, visible}
use py_capio.Scandir.Listing.{collect-visible}
use py_capio.PyModule.{default_chunk, init}
use py_capio.PyModule.Functions.{pycapio_open}
use py_capio.Proxies.{capio, proxy_route, open_route, pycapio_flags}
use py_capio.Proxies.Calls.{capio_file, Builtins, io_mode, open_proxy, listed, listdir_proxy}

abbrev pub name_of : Dirent → Bytes
name_of d = d.d_name

names-entries :
    (base : Bytes) (ds : List Dirent)
    → map (λ (e : CapioDirEntry). e.name) (map (new_entry base) ds) ≡ map name_of ds
unfolding new_entry
names-entries base [] = refl
names-entries base (d ∷ ds) = ap (λ l. d.d_name ∷ l) (names-entries base ds)

default_chunk-pos : (mode : IoMode) → 0 < default_chunk mode
default_chunk-pos text = omega arith
default_chunk-pos binary = omega arith

append-nil_right : (b r : Bytes) → b ++ r ≡ [] → r ≡ []
append-nil_right [] r h = h
append-nil_right (c ∷ b) r h = cc

module _ (K : Capio) (B : Builtins K.World) (dir : Option Bytes) (initialized : Bool) where
  opened :
      (path : Bytes) (n : ℕ) (w w' : K.World)
      → libcapio_open K (c_str path) o_rdonly 0 w ≡ (pos n, w')
      → open_dir K true path w
        ≡ (ok (record { path = path; file_descriptor = pos n; finished = false }), w')
  unfolding open_dir
  opened path n w w' e = rw e

  -- In an initialised CAPIO, `listdir_proxy` of a path that goes to CAPIO, that opens, and whose
  -- descriptor then serves a directory, with more rounds and fuel than it has entries, returns the
  -- names of all its entries in order, without "." and "..", and closes the descriptor behind the
  -- last one.
  pub listdir_proxy-visible :
      (remaining : K.World → List Dirent) (rounds fuel n : ℕ) (path : Bytes) (w w' : K.World)
      → IsDirectory K remaining (pos n)
      → proxy_route dir (B.abspath path) ≡ capio
      → initialized ≡ true
      → libcapio_open K (c_str (B.abspath path)) o_rdonly 0 w ≡ (pos n, w')
      → length (remaining w') < fuel
      → length (remaining w') < rounds
      → (w'' : K.World) × (listdir_proxy K B dir initialized rounds fuel path w
          ≡ some (ok (map name_of (visible (remaining w'))), (libcapio_close K (pos n) w'').1))
        × (remaining w'' ≡ [])
  unfolding listdir_proxy listed close
  listdir_proxy-visible remaining rounds fuel n path w w' D route up e enough h =
      let self : ScandirIteratorWrapper = record {
        path = B.abspath path;
        file_descriptor = pos n;
        finished = false;
      } in
      let (w'', found, ended) = collect-visible K remaining rounds fuel self w' D refl enough h in
      (
        w'',
        rw (route, listdir_proxy, up, opened (B.abspath path) n w w' e, listed, found)
            (ap (λ l. some (ok l, (libcapio_close K (pos n) w'').1))
              (names-entries (B.abspath path) (visible (remaining w')))),
        ended,
      )

  -- `open_proxy` of a path that goes to CAPIO and opens, with any text of a mode, gives a file
  -- object of the mode's kind, whose `readlines`, on a readable descriptor and with more rounds and
  -- fuel than there are bytes, returns all lines of the file in order and leaves none.
  pub open_proxy-readlines :
      (remaining : K.World → Bytes) (rounds fuel n : ℕ) (path flags_str : Bytes) (w w' : K.World)
      → IsReadable K (pos n) remaining
      → open_route dir (B.abspath path) ≡ capio
      → libcapio_open K (B.abspath path) (pycapio_flags flags_str) 0o777 w ≡ (pos n, w')
      → length (remaining w') < fuel
      → length (remaining w') < rounds
      → (self self' : IoWrapper) × (w'' : K.World) × (open_proxy K B dir initialized path flags_str
            w
          ≡ (ok (capio_file (io_mode flags_str) self), w'))
        × (readlines K rounds fuel (io_mode flags_str) self w'
            ≡ some (ok (map (wrap (io_mode flags_str)) (lines (remaining w'))), self', w''))
        × (remaining w'' ≡ [])
  unfolding open_proxy init new pycapio_open
  open_proxy-readlines remaining rounds fuel n path flags_str w w' R route e enough h =
      let self = init (io_mode flags_str) (pos n) none in
      let (b, w'', found, ended) =
        readlines-lines K remaining rounds fuel (io_mode flags_str) self w' R
          (default_chunk-pos (io_mode flags_str)) enough h refl in
      (
        self,
        record self { buffer = b; exhausted = true },
        w'',
        rw (route, open_proxy, pycapio_open, e),
        found,
        append-nil_right b (remaining w'') ended,
      )
