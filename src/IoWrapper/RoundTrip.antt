-- ===== src/IoWrapper/RoundTrip.antt =====
-- A producer that calls `IOWrapper::writelines` and a consumer that calls `readlines`
-- (include/IOWrapper.hpp).
use py_capio.Base.{
  ℕ, ◌<◌, ◌≡◌, sym, subst, ap, ◌∙◌, inl, inr, Bytes, true, false, some, List, [], ◌++◌, append-nil,
  map, length, arith, ok,
}
use py_capio.Posix.{Capio}
use py_capio.Posix.Laws.{IsReadable}
use py_capio.IoWrapper.{IoWrapper, IoMode, wrap, readlines}
use py_capio.IoWrapper.Lines.{lines, concat, are_lines, lines-concat}
use py_capio.IoWrapper.Readline.{pending}
use py_capio.IoWrapper.Readlines.{readlines-lines}
use py_capio.IoWrapper.Output.{writelines}
use py_capio.IoWrapper.Output.Laws.{IsWritable, Wrote, writelines-Wrote}

module _ (K : Capio) (written remaining : K.World → Bytes) where
  all_written :
      (text : Bytes) (w w' : K.World)
      → Wrote K written {A = Unit {0}} text w (ok tt, w')
      → written w' ≡ written w ++ text
  all_written text w w' (p, q, grown, parts, inl (done, none_left)) =
      grown
      ∙ ap (λ t. written w ++ t) (sym (append-nil p) ∙ ap (λ t. p ++ t) (sym none_left) ∙ sym parts)
  all_written text w w' (p, q, grown, parts, inr (z, e)) = cc

  -- Lines that each end in their one newline, written by a `writelines` that returned, on a
  -- writable descriptor to which nothing had been written, come back from `readlines` of a reader
  -- that has all of what was written before it: on a readable descriptor, with an empty buffer, a
  -- positive chunk size, not exhausted, and with more rounds and fuel than there are bytes. Nothing
  -- is pending then.
  pub readlines-writelines :
      (rounds fuel : ℕ) (mode : IoMode) (writer reader : IoWrapper) (ls : List Bytes)
      (w w' : K.World)
      → IsWritable K writer.file_descriptor written
      → IsReadable K reader.file_descriptor remaining
      → 0 < reader.chunk_size
      → reader.buffer ≡ []
      → reader.exhausted ≡ false
      → are_lines ls ≡ true
      → written w ≡ []
      → writelines K writer ls w ≡ (ok tt, w')
      → remaining w' ≡ written w'
      → length (concat ls) < fuel
      → length (concat ls) < rounds
      → (b : Bytes) × (w'' : K.World) × (readlines K rounds fuel mode reader w'
          ≡ some (ok (map (wrap mode) ls), record reader { buffer = b; exhausted = true }, w''))
        × (b ++ remaining w'' ≡ [])
  readlines-writelines rounds fuel mode writer reader ls w w' W R c empty fresh are blank done seen
        enough h =
      let all : written w' ≡ concat ls =
        all_written (concat ls) w w' (
          subst (Wrote K written {A = Unit {0}} (concat ls) w) done
            (writelines-Wrote K written writer ls w W))
        ∙ ap (λ t. t ++ concat ls) blank in
      let p : pending K remaining reader w' ≡ concat ls =
        ap (λ t. t ++ remaining w') empty ∙ seen ∙ all in
      let (b, w'', e, ended) =
        readlines-lines K remaining rounds fuel mode reader w' R c (omega (arith, ap length p))
          (omega (arith, ap length p)) fresh in
      (
        b,
        w'',
        e
            ∙ ap
                (λ t.
                  some
                    (ok (map (wrap mode) t), record reader { buffer = b; exhausted = true }, w''))
                (ap lines p ∙ lines-concat ls are),
        ended,
      )
