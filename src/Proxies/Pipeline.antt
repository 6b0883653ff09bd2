-- ===== src/Proxies/Pipeline.antt =====
-- A program that writes a file in a `with` block and one that reads its lines, both through
-- `open_proxy` (pycapio/__init__.py).
use py_capio.Base.{
  ℕ, ◌<◌, ◌≡◌, refl, subst, ap, ◌∙◌, inl, inr, ℤ, pos, Bytes, Bool, true, Option, none, some, List,
  [], ◌++◌, ◌+◌, map, length, arith, Outcome, ok,
}
use py_capio.Posix.{Capio, libcapio_open}
use py_capio.Posix.Laws.{IsReadable}
use py_capio.IoWrapper.{IoWrapper, wrap, new, readlines}
use py_capio.IoWrapper.Lines.{lines}
use py_capio.IoWrapper.Closing.{CountsCloses}
use py_capio.IoWrapper.Output.Laws.{IsWritable, Wrote, all_written}
use py_capio.PyModule.{init, with_block}
use py_capio.PyModule.Functions.{pycapio_open}
use py_capio.PyModule.Writing.{Writing, as_call, texts, with_block-Wrote}
use py_capio.Proxies.{capio, open_route, pycapio_flags}
use py_capio.Proxies.Calls.{capio_file, Builtins, io_mode, open_proxy}
use py_capio.Proxies.Reading.{open_proxy-readlines}

module _ (K : Capio) (B : Builtins K.World) (dir : Option Bytes) (initialized : Bool)
    (written remaining : K.World → Bytes) (closes : K.World → ℕ) where
  open_proxy-writer :
      (n : ℕ) (path flags_str : Bytes) (w w' : K.World)
      → open_route dir (B.abspath path) ≡ capio
      → libcapio_open K (B.abspath path) (pycapio_flags flags_str) 0o777 w ≡ (pos n, w')
      → open_proxy K B dir initialized path flags_str w
        ≡ (ok (capio_file (io_mode flags_str) (init (io_mode flags_str) (pos n) none)), w')
  unfolding open_proxy pycapio_open
  open_proxy-writer n path flags_str w w' route e = rw (route, open_proxy, pycapio_open, e) refl

  -- Where a block ended by itself, all is written.
  ended-written :
      (text : Bytes) (w w2 : K.World) (self2 : IoWrapper)
      (x : Option (Outcome (Unit {0}) × IoWrapper × K.World))
      → x ≡ some (ok tt, self2, w2)
      → (r : Outcome (Unit {0})) × (self' : IoWrapper) × (w' : K.World) × (x ≡ some (r, self', w'))
        × Wrote K written text w (r, w')
        × (self'.closed ≡ true)
        × (closes w' ≡ closes w + 1)
      → written w2 ≡ written w ++ text
  ended-written text w w2 self2 x e (r, self', w', e', (p, q, grown, parts, how), shut, once) =
      elim how [
        | inl (returned, none_left) ↦
            let same : w' ≡ w2 = cc in
            subst (λ v. written v ≡ written w ++ text) same
              (all_written K written text p q w w' grown parts none_left)
        | inr (z, failed) ↦ cc
      ]

  -- A path that goes to CAPIO is opened by `open_proxy`, for whatever mode, and a `with` block over
  -- the file object whose calls are `write` and `writelines` ends by itself; `open_proxy` then
  -- opens the path again, for whatever mode. Where the first descriptor is writable and nothing had
  -- been written to it, closing keeps what was written, the second descriptor is readable and has
  -- all of what was written before it, and rounds and fuel are more than the bytes written,
  -- `readlines` of the second file object returns the lines of the texts that were written, in
  -- order, and leaves nothing.
  pub written-readlines :
      (rounds fuel n m : ℕ) (path write_mode read_mode : Bytes) (xs : List Writing)
      (w w1 w2 w3 : K.World) (self2 : IoWrapper)
      → open_route dir (B.abspath path) ≡ capio
      → libcapio_open K (B.abspath path) (pycapio_flags write_mode) 0o777 w ≡ (pos n, w1)
      → IsWritable K (pos n) written
      → CountsCloses K closes
      → ((fd : ℤ) (v : K.World) → written (K.close_handler fd v).1 ≡ written v)
      → written w1 ≡ []
      → with_block K fuel
          (io_mode write_mode)
          (map as_call xs)
          (init (io_mode write_mode) (pos n) none)
          w1
        ≡ some (ok tt, self2, w2)
      → libcapio_open K (B.abspath path) (pycapio_flags read_mode) 0o777 w2 ≡ (pos m, w3)
      → IsReadable K (pos m) remaining
      → remaining w3 ≡ written w2
      → length (texts xs) < fuel
      → length (texts xs) < rounds
      → (reader reader' : IoWrapper) × (w4 : K.World) × (open_proxy K B dir initialized path
            write_mode w
          ≡ (ok (capio_file (io_mode write_mode) (init (io_mode write_mode) (pos n) none)), w1))
        × (open_proxy K B dir initialized path read_mode w2
            ≡ (ok (capio_file (io_mode read_mode) reader), w3))
        × (readlines K rounds fuel (io_mode read_mode) reader w3
            ≡ some (ok (map (wrap (io_mode read_mode)) (lines (texts xs))), reader', w4))
        × (remaining w4 ≡ [])
  unfolding init new
  written-readlines rounds fuel n m path write_mode read_mode xs w w1 w2 w3 self2 route opened W C
        keeps blank ended reopened R seen enough h =
      let writer = init (io_mode write_mode) (pos n) none in
      let all : remaining w3 ≡ texts xs =
        seen
        ∙ ended-written (texts xs) w1 w2 self2 _ ended (
            with_block-Wrote K written fuel (io_mode write_mode) closes xs writer w1 W C keeps refl)
        ∙ ap (λ t. t ++ texts xs) blank in
      let (reader, reader', w4, e, found, left) =
        open_proxy-readlines K B dir initialized remaining rounds fuel m path read_mode w2 w3 R
          route reopened (omega (arith, ap length all)) (omega (arith, ap length all)) in
      (
        reader,
        reader',
        w4,
        open_proxy-writer n path write_mode w w1 route opened,
        e,
        found ∙ ap (λ t. some (ok (map (wrap (io_mode read_mode)) (lines t)), reader', w4)) all,
        left,
      )
