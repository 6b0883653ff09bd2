-- ===== src/PyModule/Reader.antt =====
-- An abstract reader of a text, for the reading methods of a file object (src/pycapio.cpp,
-- include/IOWrapper.hpp).
use py_capio.Base.{
  List, ◌∷◌, ◌&&◌, ltb, not, undefined, zero, suc, ◌≢◌, ℕ, ◌≤◌, ◌<◌, ◌≡◌, refl, sym, subst, ◌∙◌, ℤ,
  Bytes, Bool, true, Option, none, some, [], ◌++◌, map, length, arith, Bool-cases, inl, inr,
  is_empty, if◌then◌else◌, Outcome, ok, raised, stop_iteration, max_size,
}
use py_capio.Posix.{Capio}
use py_capio.Posix.Laws.{IsReadable}
use py_capio.IoWrapper.{literal_size, next, readlines, readlines_loop, IoWrapper, IoMode, wrap}
use py_capio.IoWrapper.Output.{fileno}
use py_capio.IoWrapper.Lines.{line_of, rest_of, lines, length-rest_of-le, lines-nil}
use py_capio.IoWrapper.Readline.{pending}
use py_capio.IoWrapper.Readlines.{remaining-le, readline-line_of, next-line_of, readlines-lines}
use py_capio.IoWrapper.ReadAll.{read_to_end}
use py_capio.PyModule.{
  IoCall, Value, itself, number, truth, content, contents, invoke, read_call, readline_call,
  readlines_call, fileno_call, closed_call, iter_call, next_call, enter_call,
}

-- The calls that read on, to the end of a line or of the file, or ask the object itself.
pub data Ask : Type 0 where
  asks_read asks_readline asks_readlines asks_next : Ask
  asks_fileno asks_closed asks_iter asks_enter : Ask

abbrev pub as_call : Ask → IoCall
as_call asks_read = read_call none
as_call asks_readline = readline_call
as_call asks_readlines = readlines_call
as_call asks_next = next_call
as_call asks_fileno = fileno_call
as_call asks_closed = closed_call
as_call asks_iter = iter_call
as_call asks_enter = enter_call

-- Where `read()` has no undefined behaviour: the chunk is within the literal that it copies.
abbrev pub is_defined : ℕ → Ask → Bool
is_defined chunk_size asks_read = not (ltb literal_size chunk_size)
is_defined chunk_size _ = true

-- A reader has a text before it, and knows whether an iteration over it has ended.
pub record Reader : Type 0 where
  pub text : Bytes
  pub over : Bool

module _ (mode : IoMode) (fd : ℤ) (is_closed : Bool) where
  abbrev pub promised : Ask → Reader → Outcome Value × Reader
  promised asks_read r = (ok (content (wrap mode r.text)), record r { text = [] })
  promised asks_readline r =
      (ok (content (wrap mode (line_of r.text))), record r { text = rest_of r.text })
  promised asks_readlines r =
      if r.over
      then (ok (contents []), r)
      else (ok (contents (map (wrap mode) (lines r.text))), record { text = []; over = true })
  promised asks_next r =
      if r.over
      then (raised stop_iteration, r)
      else if is_empty r.text
      then (raised stop_iteration, record r { over = true })
      else (ok (content (wrap mode (line_of r.text))), record r { text = rest_of r.text })
  promised asks_fileno r = (ok (number fd), r)
  promised asks_closed r = (ok (truth is_closed), r)
  promised asks_iter r = (ok itself, r)
  promised asks_enter r = (ok itself, r)

  pub promised-le : (ask : Ask) (r : Reader) → length (promised ask r).1.text ≤ length r.text
  promised-le asks_read r = omega arith
  promised-le asks_readline r = length-rest_of-le r.text
  promised-le asks_readlines r = ground arith
  promised-le asks_next r = ground (arith, length-rest_of-le r.text)
  promised-le asks_fileno r = omega arith
  promised-le asks_closed r = omega arith
  promised-le asks_iter r = omega arith
  promised-le asks_enter r = omega arith

pub promised-defined :
    (mode : IoMode) (fd : ℤ) (is_closed : Bool) (ask : Ask) (r : Reader)
    → (promised mode fd is_closed ask r).0 ≢ undefined
promised-defined mode fd is_closed asks_read r = λ e. cc
promised-defined mode fd is_closed asks_readline r = λ e. cc
promised-defined mode fd is_closed asks_readlines r = λ e. ground (arith, e)
promised-defined mode fd is_closed asks_next r = λ e. ground (arith, e)
promised-defined mode fd is_closed asks_fileno r = λ e. cc
promised-defined mode fd is_closed asks_closed r = λ e. cc
promised-defined mode fd is_closed asks_iter r = λ e. cc
promised-defined mode fd is_closed asks_enter r = λ e. cc

module _ (K : Capio) (remaining : K.World → Bytes) (fuel : ℕ) (mode : IoMode) where
  -- The reader that an object stands for.
  abbrev pub reader : IoWrapper → K.World → Reader
  reader self w = record { text = pending K remaining self w; over = self.exhausted }

  abbrev pub Agrees :
      {A : Type 0} → A × Reader → IoWrapper → Option (A × IoWrapper × K.World) → Type 0
  Agrees x self r =
      (b : Bytes) × (w' : K.World) × (r
        ≡ some (x.0, record self { buffer = b; exhausted = x.1.over }, w'))
      × (b ++ remaining w' ≡ x.1.text)

  module _ (self : IoWrapper) (w : K.World) (R : IsReadable K self.file_descriptor remaining)
      (c : 0 < self.chunk_size) (enough : length (pending K remaining self w) < fuel)
      (fits : length (pending K remaining self w) ≤ max_size) where
    abbrev Kept : Ask → Type 0
    Kept ask =
        Agrees (promised mode self.file_descriptor self.closed ask (reader self w)) self
          (invoke K fuel mode (as_call ask) self w)

    still : (a : Outcome Value) → Agrees (a, reader self w) self (some (a, self, w))
    still a = (self.buffer, w, refl, refl)

    exhausted-next :
        self.exhausted ≡ true → next K fuel mode self w ≡ some (raised stop_iteration, self, w)
    unfolding next
    exhausted-next over = rw over

    exhausted-readlines :
        self.exhausted ≡ true → readlines K fuel fuel mode self w ≡ some (ok [], self, w)
    unfolding readlines readlines_loop
    exhausted-readlines over = go fuel (omega arith)
      where
        go : (rounds : ℕ) → 0 < rounds → readlines K rounds fuel mode self w ≡ some (ok [], self, w)
        go zero h = absurd (omega arith)
        go (suc rounds) h = rw (exhausted-next over, readlines_loop)

    by_promise :
        (ask : Ask) (x : Outcome Value × Reader)
        → promised mode self.file_descriptor self.closed ask (reader self w) ≡ x
        → Agrees x self (invoke K fuel mode (as_call ask) self w)
        → Kept ask
    by_promise ask x e a =
        subst (λ y. Agrees y self (invoke K fuel mode (as_call ask) self w)) (sym e) a

    next-Kept : Kept asks_next
    unfolding invoke
    next-Kept = elim (Bool-cases self.exhausted) [
      | inl o ↦
          by_promise asks_next (raised stop_iteration, reader self w) (rw o)
            (self.buffer, w, rw (exhausted-next o, invoke), refl)
      | inr fresh ↦
          let (b, w', e, rest) = next-line_of K remaining fuel mode self w R c enough fresh in
          let s = pending K remaining self w in
          elim (Bool-cases (is_empty s)) [
            | inl p ↦
                let nothing = lines-nil s p in
                by_promise asks_next (raised stop_iteration, record { text = s; over = true })
                  (rw (fresh, p)) (b, w', rw (e, invoke, p), rest ∙ nothing.2 ∙ sym nothing.0)
            | inr p ↦
                by_promise asks_next
                  (
                    ok (content (wrap mode (line_of s))),
                    record { text = rest_of s; over = self.exhausted },
                  )
                  (rw (fresh, p)) (b, w', rw (e, invoke, p), rest)
          ]
    ]

    readlines-Kept : Kept asks_readlines
    unfolding invoke
    readlines-Kept = elim (Bool-cases self.exhausted) [
      | inl o ↦
          by_promise asks_readlines (ok (contents []), reader self w) (rw o)
            (self.buffer, w, rw (exhausted-readlines o, invoke), refl)
      | inr fresh ↦
          let (b, w', e, ended) =
            readlines-lines K remaining fuel fuel mode self w R c enough enough fresh in
          by_promise asks_readlines
            (
              ok (contents (map (wrap mode) (lines (pending K remaining self w)))),
              record { text = []; over = true },
            )
            (rw fresh) (b, w', rw (e, invoke), ended)
    ]

    pub invoke-Kept : (ask : Ask) → is_defined self.chunk_size ask ≡ true → Kept ask
    unfolding invoke fileno
    invoke-Kept asks_read defined =
        let (w', e, ended) =
          read_to_end K remaining fuel mode self w R c
            (omega (arith, remaining-le K remaining self w)) fits (ground (arith, defined)) in
        ([], w', rw (e, invoke), ended)
    invoke-Kept asks_readline defined =
        let (b, w', e, rest) = readline-line_of K remaining fuel mode self w R c enough in
        (b, w', rw (e, invoke), rest)
    invoke-Kept asks_readlines defined = readlines-Kept
    invoke-Kept asks_next defined = next-Kept
    invoke-Kept asks_fileno defined = still _
    invoke-Kept asks_closed defined = still _
    invoke-Kept asks_iter defined = still _
    invoke-Kept asks_enter defined = still _

-- Where every call of a row is defined.
abbrev pub are_defined : ℕ → List Ask → Bool
are_defined chunk_size [] = true
are_defined chunk_size (ask ∷ asks) = is_defined chunk_size ask && are_defined chunk_size asks
