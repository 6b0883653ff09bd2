-- ===== src/PyModule/Session.antt =====
-- A row of calls of the reading methods of a file object (src/pycapio.cpp).
use py_capio.Base.{
  true, ℕ, ◌≤◌, ◌<◌, ◌≡◌, refl, subst, ap, ℤ, Bytes, Bool, Option, none, some, List, [], ◌∷◌,
  length, arith, Outcome, max_size,
}
use py_capio.Posix.{Capio}
use py_capio.Posix.Laws.{IsReadable}
use py_capio.IoWrapper.{IoWrapper, IoMode}
use py_capio.IoWrapper.Readline.{pending}
use py_capio.PyModule.Reader.{
  are_defined, Ask, as_call, Reader, reader, promised, promised-le, Agrees, invoke-Kept,
}
use py_capio.PyModule.{Value, invoke}

module _ (mode : IoMode) (fd : ℤ) (is_closed : Bool) where
  -- The answers to a row of calls, exceptions among them.
  unfoldable pub promises : List Ask → Reader → List (Outcome Value) × Reader
  promises [] r = ([], r)
  promises (ask ∷ asks) r =
      let (a, r') = promised mode fd is_closed ask r in
      let (more, r'') = promises asks r' in (a ∷ more, r'')

module _ (K : Capio) (fuel : ℕ) (mode : IoMode) where
  -- The answers to a row of calls, where a program goes on behind an exception.
  unfoldable pub session :
      List Ask → IoWrapper → K.World → Option (List (Outcome Value) × IoWrapper × K.World)
  session [] self w = some ([], self, w)
  session (ask ∷ asks) self w = elim (invoke K fuel mode (as_call ask) self w) [
    | none ↦ none
    | some (a, self', w') ↦ elim (session asks self' w') [
      | none ↦ none
      | some (more, self'', w'') ↦ some (a ∷ more, self'', w'')
    ]
  ]

  -- On a readable descriptor, with a positive chunk size, more fuel than there are pending bytes,
  -- and no more of them than a string can hold, any row of `read()`, `readline`, `readlines`,
  -- `next` and questions to the file object, exceptions caught between them, and without `read()`
  -- unless the chunk size is at most two, is answered as by the abstract reader of what is pending,
  -- and leaves what that leaves.
  pub session-promises :
      (remaining : K.World → Bytes) (asks : List Ask) (self : IoWrapper) (w : K.World)
      → IsReadable K self.file_descriptor remaining
      → 0 < self.chunk_size
      → length (pending K remaining self w) < fuel
      → length (pending K remaining self w) ≤ max_size
      → are_defined self.chunk_size asks ≡ true
      → Agrees K remaining fuel mode
          (promises mode self.file_descriptor self.closed asks
            (reader K remaining fuel mode self w))
          self
          (session asks self w)
  unfolding session promises
  session-promises remaining [] self w R c enough fits defined = (self.buffer, w, refl, refl)
  session-promises remaining (ask ∷ asks) self w R c enough fits defined =
      let (b, w', e, left) =
        invoke-Kept K remaining fuel mode self w R c enough fits ask (ground (arith, defined)) in
      let x =
        promised mode self.file_descriptor self.closed ask (reader K remaining fuel mode self w) in
      let self' = record self { buffer = b; exhausted = x.1.over } in
      let less : length (pending K remaining self' w') ≤ length (pending K remaining self w) =
        omega (
          arith,
          ap length left,
          promised-le mode self.file_descriptor self.closed ask
              (reader K remaining fuel mode self w),
        ) in
      let there : reader K remaining fuel mode self' w' ≡ x.1 =
        λ i. record { text = left i; over = x.1.over } in
      let (b', w'', e', left') =
        subst
          (λ r.
            Agrees K remaining fuel mode (promises mode self.file_descriptor self.closed asks r)
              self' (session asks self' w'))
          there
          (session-promises remaining asks self' w' R c (omega arith) (omega arith)
            (ground (arith, defined))) in
      (b', w'', rw (e, session, e'), left')
