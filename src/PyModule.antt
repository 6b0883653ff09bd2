-- ===== src/PyModule.antt =====
-- src/pycapio.cpp: what the module `_pycapio` offers to Python. A call of a method is a constructor,
-- with `none` for an argument that is left to its default; the conversion of arguments by pybind11,
-- which refuses others, is left out. A `with` block is a row of calls between `__enter__` and
-- `__exit__`.

pub mod Directory
pub mod Paths
pub mod Functions
pub mod Closing
pub mod Reader
pub mod Session
pub mod Ending
pub mod Writing
pub mod Tests
use py_capio.Base.{
  ℕ, zero, suc, ℤ, pos, negsuc, Bytes, Bool, true, false, Option, none, some, List, [], ◌*◌, codes,
  ◌∷◌, Outcome, ok, raised, undefined,
}
use py_capio.Posix.{Capio, libcapio_open, libcapio_mkdir}
use py_capio.IoWrapper.{
  IoMode, text, binary, ReturnType, IoWrapper, new, read, readline, readlines, next,
}
use py_capio.IoWrapper.Output.{write, writelines, fileno, seek, close, flush}
use py_capio.Scandir
use py_capio.Scandir.{
  CapioDirEntry, ScandirIteratorWrapper, entry_path, is_dir, is_file, is_symlink,
}
use py_capio.Server.{Config, Host, Process, Run, libcapio_init, libcapio_teardown}

-- A value of an optional argument.
abbrev pub given {ℓ} : {A : Type ℓ} → Option A → A → A
given none default = default
given (some a) default = a

-- `register_IO_wrapper<IOMode::Text>(m, "PyCapioTextIOWrapper", 4096)`, and the binary one.
abbrev pub default_chunk : IoMode → ℕ
default_chunk text = 4096
default_chunk binary = 16 * 1024

-- `py11::init<int, uint64_t>()`
unfoldable pub init : IoMode → ℤ → Option ℕ → IoWrapper
unfolding new
init mode fd chunk_size = new fd (given chunk_size (default_chunk mode))

-- The methods of `PyCapioTextIOWrapper` and `PyCapioBinaryIOWrapper`.
pub data IoCall : Type 0 where
  read_call : Option ℤ → IoCall
  readline_call readlines_call : IoCall
  write_call : Bytes → IoCall
  writelines_call : List Bytes → IoCall
  fileno_call close_call flush_call : IoCall
  seek_call : Option ℤ → Option ℕ → IoCall
  closed_call iter_call next_call enter_call exit_call : IoCall

-- What a method returns to Python; `itself` is the object of the call.
pub data Value : Type 0 where
  nothing itself : Value
  number : ℤ → Value
  truth : Bool → Value
  content : ReturnType → Value
  contents : List ReturnType → Value

abbrev pub returning {ℓ} : {A : Type ℓ} → (A → Value) → Outcome A → Outcome Value
returning f (ok a) = ok (f a)
returning f (raised e) = raised e
returning f undefined = undefined

abbrev pub seek_set : ℕ
seek_set = 0

module _ (K : Capio) (fuel : ℕ) (mode : IoMode) where
  open K use {World}

  -- `none` in front says that a loop ran out of fuel.
  unfoldable pub invoke : IoCall → IoWrapper → World → Option (Outcome Value × IoWrapper × World)
  invoke (read_call size) self w = elim (read K fuel mode (given size (negsuc 0)) self w) [
    | none ↦ none
    | some (r, self', w') ↦ some (returning content r, self', w')
  ]
  invoke readline_call self w = elim (readline K fuel mode self w) [
    | none ↦ none
    | some (r, self', w') ↦ some (ok (content r), self', w')
  ]
  invoke readlines_call self w = elim (readlines K fuel fuel mode self w) [
    | none ↦ none
    | some (r, self', w') ↦ some (returning contents r, self', w')
  ]
  invoke (write_call s) self w =
      let (r, w') = write K self s w in some (returning number r, self, w')
  invoke (writelines_call lines) self w =
      let (r, w') = writelines K self lines w in some (returning (λ _. nothing) r, self, w')
  invoke fileno_call self w = some (ok (number (fileno K self)), self, w)
  invoke close_call self w = let (self', w') = close K self w in some (ok nothing, self', w')
  invoke flush_call self w = some (ok nothing, self, flush K w)
  invoke (seek_call offset whence) self w =
      let (r, w') = seek K self (given offset (pos 0)) (given whence seek_set) w in
      some (returning number r, self, w')
  invoke closed_call self w = some (ok (truth self.closed), self, w)
  invoke iter_call self w = some (ok itself, self, w)
  invoke next_call self w = elim (next K fuel mode self w) [
    | none ↦ none
    | some (r, self', w') ↦ some (returning content r, self', w')
  ]
  invoke enter_call self w = some (ok itself, self, w)
  invoke exit_call self w = let (self', w') = close K self w in some (ok nothing, self', w')

  -- The calls of a block, one behind the other; an exception leaves the rest out. Undefined
  -- behaviour ends the program.
  unfoldable pub block :
      List IoCall → IoWrapper → World → Option (Outcome (Unit {0}) × IoWrapper × World)
  block [] self w = some (ok tt, self, w)
  block (call ∷ calls) self w = elim (invoke call self w) [
    | none ↦ none
    | some (ok v, self', w') ↦ block calls self' w'
    | some (raised e, self', w') ↦ some (raised e, self', w')
    | some (undefined, self', w') ↦ some (undefined, self', w')
  ]

  -- `with file: ...`: `__exit__` is called also where the block raised, and its result, `None`, lets
  -- the exception pass.
  unfoldable pub with_block :
      List IoCall → IoWrapper → World → Option (Outcome (Unit {0}) × IoWrapper × World)
  unfolding block
  with_block calls self w = elim (invoke enter_call self w) [
    | none ↦ none
    | some (entered, self', w') ↦ elim (block calls self' w') [
      | none ↦ none
      | some (undefined, self'', w'') ↦ some (undefined, self'', w'')
      | some (r, self'', w'') ↦ elim (invoke exit_call self'' w'') [
        | none ↦ none
        | some (left, self3, w3) ↦ some (r, self3, w3)
      ]
    ]
  ]
