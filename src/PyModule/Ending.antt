-- ===== src/PyModule/Ending.antt =====
-- `with` blocks over a file object (src/pycapio.cpp, `register_IO_wrapper`) that only read.
use py_capio.Base.{
  ℕ, ◌+◌, ◌≤◌, ◌<◌, ◌≡◌, ◌≢◌, refl, subst, ap, ℤ, Bytes, Bool, true, false, some, List, [], ◌∷◌,
  ◌++◌, map, length, arith, Outcome, ok, raised, undefined, max_size,
}
use py_capio.Posix.{Capio}
use py_capio.Posix.Laws.{IsReadable}
use py_capio.IoWrapper.{IoWrapper, IoMode}
use py_capio.IoWrapper.Readline.{pending}
use py_capio.IoWrapper.Output.{close}
use py_capio.IoWrapper.Closing.{CountsCloses}
use py_capio.PyModule.{Value, invoke, block, with_block}
use py_capio.PyModule.Closing.{with_block-returns, with_block-closes}
use py_capio.PyModule.Reader.{
  are_defined, Ask, as_call, Reader, reader, promised, promised-le, promised-defined, Agrees,
  invoke-Kept,
}

-- What a block promises: the first exception ends it.
abbrev pub continued :
    Outcome Value → Reader → Outcome (Unit {0}) × Reader → Outcome (Unit {0}) × Reader
continued (ok v) r rest = rest
continued (raised e) r rest = (raised e, r)
continued undefined r rest = (undefined, r)

abbrev pub promised_block : IoMode → ℤ → Bool → List Ask → Reader → Outcome (Unit {0}) × Reader
promised_block mode fd is_closed [] r = (ok tt, r)
promised_block mode fd is_closed (ask ∷ asks) r =
    let (a, r') = promised mode fd is_closed ask r in
    continued a r' (promised_block mode fd is_closed asks r')

promised_block-defined :
    (mode : IoMode) (fd : ℤ) (is_closed : Bool) (asks : List Ask) (r : Reader)
    → (promised_block mode fd is_closed asks r).0 ≢ undefined
promised_block-defined mode fd is_closed [] r = λ e. cc
promised_block-defined mode fd is_closed (ask ∷ asks) r =
    let (a, r') = promised mode fd is_closed ask r in
    go a r' (promised-defined mode fd is_closed ask r)
      (promised_block-defined mode fd is_closed asks r')
  where
    go :
        (a : Outcome Value) (r' : Reader)
        → a ≢ undefined
        → (promised_block mode fd is_closed asks r').0 ≢ undefined
        → (continued a r' (promised_block mode fd is_closed asks r')).0 ≢ undefined
    go (ok v) r' d again = again
    go (raised x) r' d again = λ e. cc
    go undefined r' d again = absurd (d refl)

module _ (K : Capio) (remaining : K.World → Bytes) (fuel : ℕ) (mode : IoMode) where
  block-Agrees :
      (asks : List Ask) (self : IoWrapper) (w : K.World)
      → IsReadable K self.file_descriptor remaining
      → 0 < self.chunk_size
      → length (pending K remaining self w) < fuel
      → length (pending K remaining self w) ≤ max_size
      → are_defined self.chunk_size asks ≡ true
      → Agrees K remaining fuel mode
          (promised_block mode self.file_descriptor self.closed asks
            (reader K remaining fuel mode self w))
          self
          (block K fuel mode (map as_call asks) self w)
  unfolding block
  block-Agrees [] self w R c enough fits can = (self.buffer, w, refl, refl)
  block-Agrees (ask ∷ asks) self w R c enough fits can =
      let (b, w', e, left) =
        invoke-Kept K remaining fuel mode self w R c enough fits ask (ground (arith, can)) in
      let start = reader K remaining fuel mode self w in
      let x = promised mode self.file_descriptor self.closed ask start in
      let self' = record self { buffer = b; exhausted = x.1.over } in
      let less : length (pending K remaining self' w') ≤ length (pending K remaining self w) =
        omega
          (arith, ap length left, promised-le mode self.file_descriptor self.closed ask start) in
      let there : reader K remaining fuel mode self' w' ≡ x.1 =
        λ i. record { text = left i; over = x.1.over } in
      go x.0 x.1 b w' e left (
        subst
          (λ r.
            Agrees K remaining fuel mode
              (promised_block mode self.file_descriptor self.closed asks r) self'
              (block K fuel mode (map as_call asks) self' w'))
          there (block-Agrees asks self' w' R c (omega arith) (omega arith) (ground (arith, can))))
    where
      go :
          (a : Outcome Value) (r' : Reader) (b : Bytes) (w' : K.World)
          → let self' = record self { buffer = b; exhausted = r'.over } in
            invoke K fuel mode (as_call ask) self w ≡ some (a, self', w')
            → b ++ remaining w' ≡ r'.text
            → Agrees K remaining fuel mode
                (promised_block mode self.file_descriptor self.closed asks r')
                self'
                (block K fuel mode (map as_call asks) self' w')
            → Agrees K remaining fuel mode
                (continued a r' (promised_block mode self.file_descriptor self.closed asks r'))
                self
                (block K fuel mode (map as_call (ask ∷ asks)) self w)
      go (ok v) r' b w' e left (b2, w2, e2, left2) = (b2, w2, rw (e, block, e2), left2)
      go (raised x) r' b w' e left again = (b, w', rw (e, block), left)
      go undefined r' b w' e left again = (b, w', rw (e, block), left)

  -- On a readable descriptor, with a positive chunk size, more fuel than there are pending bytes,
  -- and no more of them than a string can hold, a `with` block over an open file object whose calls
  -- are `read()`, `readline`, `readlines`, `next` and questions to the object, without `read()`
  -- unless the chunk size is at most two, returns, and ends as the abstract reader of what is
  -- pending says, by itself or by its first exception; the object is closed then and, where only
  -- `close` adds one to the count of closings, there is one closing more.
  pub with_block-ends :
      (closes : K.World → ℕ) (asks : List Ask) (self : IoWrapper) (w : K.World)
      → IsReadable K self.file_descriptor remaining
      → CountsCloses K closes
      → 0 < self.chunk_size
      → length (pending K remaining self w) < fuel
      → length (pending K remaining self w) ≤ max_size
      → are_defined self.chunk_size asks ≡ true
      → self.closed ≡ false
      → let start = reader K remaining fuel mode self w in
        let promise = promised_block mode self.file_descriptor self.closed asks start in
        (self' : IoWrapper) × (w' : K.World) × (with_block K fuel mode (map as_call asks) self w
          ≡ some (promise.0, self', w'))
        × (self'.closed ≡ true)
        × (closes w' ≡ closes w + 1)
  with_block-ends closes asks self w R C c enough fits can fresh =
      let start = reader K remaining fuel mode self w in
      let x = promised_block mode self.file_descriptor self.closed asks start in
      let defined = promised_block-defined mode self.file_descriptor self.closed asks start in
      let (b, w1, e, rest) = block-Agrees asks self w R c enough fits can in
      let self1 = record self { buffer = b; exhausted = x.1.over } in
      let (left, w2) = close K self1 w1 in
      let calls = map as_call asks in
      let ended = with_block-returns K fuel mode calls self w x.0 self1 w1 e defined in
      let (shut, once) =
        with_block-closes K closes fuel mode calls self left w w2 x.0 C fresh ended defined in
      (left, w2, ended, shut, once)
