-- ===== src/PyModule/Closing.antt =====
-- How often a `with` block over a file object (src/pycapio.cpp, `register_IO_wrapper`) closes its
-- descriptor.
use py_capio.Base.{
  ℕ, ◌+◌, ◌≡◌, ◌≢◌, refl, subst, ◌∙◌, negsuc, true, false, Option, none, some, List, [], ◌∷◌, arith,
  Outcome, ok, raised, undefined, if◌then◌else◌,
}
use py_capio.Posix.{Capio, libcapio_close}
use py_capio.IoWrapper.{IoMode, IoWrapper}
use py_capio.IoWrapper.Output.{close, flush}
use py_capio.IoWrapper.Keeping.{readline-Keeps, next-Keeps, readlines-Keeps, read-Keeps}
use py_capio.IoWrapper.Closing.{CountsCloses, write-closes, writelines-closes, seek-closes}
use py_capio.PyModule.{
  IoCall, Value, invoke, block, with_block, given, read_call, readline_call, readlines_call,
  write_call, writelines_call, fileno_call, close_call, flush_call, seek_call, closed_call,
  iter_call, next_call, enter_call, exit_call,
}

module _ (K : Capio) (closes : K.World → ℕ) (C : CountsCloses K closes) (base : ℕ) where
  -- The descriptor was closed once if the object says so, and not at all otherwise.
  abbrev Balanced : IoWrapper → K.World → Type 0
  Balanced self w = closes w ≡ base + (if self.closed then 1 else 0)

  abbrev BalancedAt {ℓ} : {A : Type ℓ} → Option (A × IoWrapper × K.World) → Type 0
  BalancedAt none = Unit
  BalancedAt (some (r, self, w)) = Balanced self w

  close-Balanced :
      (self : IoWrapper) (w : K.World)
      → Balanced self w
      → let (self', w') = close K self w in (self'.closed ≡ true) × (closes w' ≡ base + 1)
  unfolding close libcapio_close
  close-Balanced self w b = ground (arith, C.closing self.file_descriptor w)

  module _ (fuel : ℕ) (mode : IoMode) where
    invoke-Balanced :
        (call : IoCall) (self : IoWrapper) (w : K.World)
        → Balanced self w
        → BalancedAt (invoke K fuel mode call self w)
    unfolding invoke flush
    invoke-Balanced (read_call size) self w b =
        ground (arith, read-Keeps K closes C.reading fuel mode (given size (negsuc 0)) self w)
    invoke-Balanced readline_call self w b =
        ground (arith, readline-Keeps K closes C.reading fuel mode self w)
    invoke-Balanced readlines_call self w b =
        ground (arith, readlines-Keeps K closes C.reading fuel fuel mode self w)
    invoke-Balanced (write_call s) self w b = write-closes K closes C self s w ∙ b
    invoke-Balanced (writelines_call lines) self w b = writelines-closes K closes C self lines w ∙ b
    invoke-Balanced fileno_call self w b = b
    invoke-Balanced close_call self w b = ground (arith, close-Balanced self w b)
    invoke-Balanced flush_call self w b = C.flushes w ∙ b
    invoke-Balanced (seek_call offset whence) self w b = seek-closes K closes C self _ _ w ∙ b
    invoke-Balanced closed_call self w b = b
    invoke-Balanced iter_call self w b = b
    invoke-Balanced next_call self w b =
        ground (arith, next-Keeps K closes C.reading fuel mode self w)
    invoke-Balanced enter_call self w b = b
    invoke-Balanced exit_call self w b = ground (arith, close-Balanced self w b)

    block-Balanced :
        (calls : List IoCall) (self : IoWrapper) (w : K.World)
        → Balanced self w
        → BalancedAt (block K fuel mode calls self w)
    unfolding block
    block-Balanced [] self w b = b
    block-Balanced (call ∷ calls) self w b =
        go (invoke K fuel mode call self w) (invoke-Balanced call self w b) (block-Balanced calls)
      where
        go :
            (r : Option (Outcome Value × IoWrapper × K.World))
            → BalancedAt r
            → ((self' : IoWrapper) (w' : K.World)
                → Balanced self' w'
                → BalancedAt (block K fuel mode calls self' w'))
            → BalancedAt (elim r [
              | none ↦ none
              | some (ok v, self', w') ↦ block K fuel mode calls self' w'
              | some (raised e, self', w') ↦ some (raised e, self', w')
              | some (undefined, self', w') ↦ some (undefined, self', w')
            ])
        go none b again = tt
        go (some (ok v, self', w')) b again = again self' w' b
        go (some (raised e, self', w')) b again = b
        go (some (undefined, self', w')) b again = b

    -- A block that ends has closed the descriptor, once.
    abbrev ClosedOnce : Option (Outcome (Unit {0}) × IoWrapper × K.World) → Type 0
    ClosedOnce none = Unit
    ClosedOnce (some (ok u, self, w)) = (self.closed ≡ true) × (closes w ≡ base + 1)
    ClosedOnce (some (raised e, self, w)) = (self.closed ≡ true) × (closes w ≡ base + 1)
    ClosedOnce (some (undefined, self, w)) = Unit

    with_block-ClosedOnce :
        (calls : List IoCall) (self : IoWrapper) (w : K.World)
        → Balanced self w
        → ClosedOnce (with_block K fuel mode calls self w)
    unfolding with_block invoke
    with_block-ClosedOnce calls self w b =
        go (block K fuel mode calls self w) (block-Balanced calls self w b)
      where
        go :
            (r : Option (Outcome (Unit {0}) × IoWrapper × K.World))
            → BalancedAt r
            → ClosedOnce (elim r [
              | none ↦ none
              | some (undefined, self', w') ↦ some (undefined, self', w')
              | some (r, self', w') ↦ let (self'', w'') = close K self' w' in some (r, self'', w'')
            ])
        go none b = tt
        go (some (undefined, self', w')) b = tt
        go (some (ok u, self', w')) b = close-Balanced self' w' b
        go (some (raised e, self', w')) b = close-Balanced self' w' b

module _ (K : Capio) (fuel : ℕ) (mode : IoMode) where
  pub with_block-returns :
      (calls : List IoCall) (self : IoWrapper) (w : K.World) (a : Outcome (Unit {0}))
      (self' : IoWrapper) (w' : K.World)
      → block K fuel mode calls self w ≡ some (a, self', w')
      → a ≢ undefined
      → with_block K fuel mode calls self w ≡ some (a, (close K self' w').0, (close K self' w').1)
  unfolding with_block invoke
  with_block-returns calls self w (ok u) self' w' e defined = rw (e, with_block, invoke)
  with_block-returns calls self w (raised x) self' w' e defined = rw (e, with_block, invoke)
  with_block-returns calls self w undefined self' w' e defined = absurd (defined refl)

-- Where only `close` adds one to the count of closings, a `with` block over an open file object,
-- whatever calls are made in it and whether it ends or an exception leaves it, ends with the object
-- closed and its descriptor closed exactly once.
pub with_block-closes :
    (K : Capio) (closes : K.World → ℕ) (fuel : ℕ) (mode : IoMode) (calls : List IoCall)
    (self self' : IoWrapper) (w w' : K.World) (r : Outcome (Unit {0}))
    → CountsCloses K closes
    → self.closed ≡ false
    → with_block K fuel mode calls self w ≡ some (r, self', w')
    → r ≢ undefined
    → (self'.closed ≡ true) × (closes w' ≡ closes w + 1)
with_block-closes K closes fuel mode calls self self' w w' r C fresh e defined = ending r defined (
    subst (ClosedOnce K closes C (closes w) fuel mode) e
      (with_block-ClosedOnce K closes C (closes w) fuel mode calls self w (rw fresh (omega arith))))
  where
    ending :
        (r : Outcome (Unit {0}))
        → r ≢ undefined
        → ClosedOnce K closes C (closes w) fuel mode (some (r, self', w'))
        → (self'.closed ≡ true) × (closes w' ≡ closes w + 1)
    ending (ok u) d h = h
    ending (raised x) d h = h
    ending undefined d h = absurd (d refl)
