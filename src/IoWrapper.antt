-- ===== src/IoWrapper.antt =====
-- include/IOWrapper.hpp: the file object over a CAPIO descriptor. Each method takes the wrapper and
-- the world and returns both anew; the text and the binary instance differ in `wrap` alone. A loop
-- takes fuel, and answers `none` when it runs out.
pub mod Lines
pub mod Readline
pub mod Readlines
pub mod ReadAll
pub mod ReadSized
pub mod Chunks
pub mod Keeping
pub mod Ahead
pub mod Closing
pub mod RoundTrip
pub mod Output
pub mod Tests
use py_capio.Base.{
  ℕ, zero, suc, ◌+◌, ◌≡◌, ℤ, pos, negsuc, eq_ℤ, is_positive, to_size, add_size, Bytes, Bool, true,
  false, Option, none, some, List, [], ◌∷◌, ◌++◌, length, is_empty, take, drop, replicate, ltb,
  if◌then◌else◌, find, resized, resize, overwrite, Outcome, ok, raised, undefined, stop_iteration,
  py_capio_exception, write_failed,
}
use py_capio.Posix.{Capio, Transfer, libcapio_read, libcapio_write, libcapio_close, libcapio_lseek}

-- `IOMode`, and the type of a result in either mode: `std::string` or `pybind11::bytes`.
pub data IoMode : Type 0 where
  text binary : IoMode

pub data ReturnType : Type 0 where
  str : Bytes → ReturnType
  raw : Bytes → ReturnType

unfoldable pub wrap : IoMode → Bytes → ReturnType
wrap text s = str s
wrap binary s = raw s

abbrev pub payload : ReturnType → Bytes
payload (str s) = s
payload (raw s) = s

pub record IoWrapper : Type 0 where
  pub file_descriptor : ℤ
  pub chunk_size : ℕ
  pub buffer : Bytes
  pub closed : Bool
  pub exhausted : Bool

-- The constructor
unfoldable pub new : ℤ → ℕ → IoWrapper
new fd chunk_size = record {
  file_descriptor = fd;
  chunk_size = chunk_size;
  buffer = [];
  closed = false;
  exhausted = false;
}

abbrev pub newline : ℕ
newline = 10

-- `tmp`, made of NUL, after a read of `n` bytes and the cut to them.
unfoldable pub received : ℕ → ℕ → Bytes → Bytes
received n chunk_size stored = resized n (overwrite stored (replicate chunk_size 0))

-- The number of bytes in the cases where it is positive.
abbrev pub count : ℤ → ℕ
count (pos n) = n
count (negsuc n) = 0

module _ (K : Capio) where
  open K use {World}

  -- The loop of `readline_raw` and of `readline`, which are the same code.
  unfoldable pub readline_loop : ℕ → Bytes → IoWrapper → World → Option (Bytes × IoWrapper × World)
  readline_loop zero out self w = none
  readline_loop (suc fuel) out self w = elim (find newline self.buffer) [
    | some nl ↦
        some
          (out ++ take (suc nl) self.buffer, record self { buffer = drop (suc nl) self.buffer }, w)
    | none ↦
        let out' = if is_empty self.buffer then out else out ++ self.buffer in
        let (t, w') = libcapio_read K self.file_descriptor self.chunk_size w in
        let more =
          readline_loop fuel out'
            (record self { buffer = received (count t.result) self.chunk_size t.stored }) w' in
        if is_positive t.result then more else some (out', record self { buffer = [] }, w')
  ]

  unfoldable pub readline_raw : ℕ → IoWrapper → World → Option (Bytes × IoWrapper × World)
  unfolding readline_loop
  readline_raw fuel self w = readline_loop fuel [] self w

  -- `none` in front says that the fuel ran out; an exception or a value comes with the new state.
  unfoldable pub next :
      ℕ → IoMode → IoWrapper → World → Option (Outcome ReturnType × IoWrapper × World)
  unfolding readline_raw wrap
  next fuel mode self w =
      if self.exhausted
      then some (raised stop_iteration, self, w)
      else elim (readline_raw fuel self w) [
        | none ↦ none
        | some (line, self', w') ↦
            if is_empty line
            then some (raised stop_iteration, record self' { exhausted = true }, w')
            else some (ok (wrap mode line), self', w')
      ]

  unfoldable pub readline : ℕ → IoMode → IoWrapper → World → Option (ReturnType × IoWrapper × World)
  unfolding readline_loop wrap
  readline fuel mode self w = elim (readline_loop fuel [] self w) [
    | none ↦ none
    | some (line, self', w') ↦ some (wrap mode line, self', w')
  ]

  -- The loop of `readlines`: `stop_iteration` ends it, and no other exception is caught.
  unfoldable pub readlines_loop :
      ℕ
      → ℕ
      → IoMode
      → List ReturnType
      → IoWrapper
      → World
      → Option (Outcome (List ReturnType) × IoWrapper × World)
  unfolding next
  readlines_loop zero fuel mode found self w = none
  readlines_loop (suc rounds) fuel mode found self w = elim (next fuel mode self w) [
    | none ↦ none
    | some (ok line, self', w') ↦ readlines_loop rounds fuel mode (found ++ (line ∷ [])) self' w'
    | some (raised stop_iteration, self', w') ↦ some (ok found, self', w')
    | some (raised e, self', w') ↦ some (raised e, self', w')
    | some (undefined, self', w') ↦ some (undefined, self', w')
  ]

  unfoldable pub readlines :
      ℕ → ℕ → IoMode → IoWrapper → World → Option (Outcome (List ReturnType) × IoWrapper × World)
  unfolding readlines_loop
  readlines rounds fuel mode self w = readlines_loop rounds fuel mode [] self w

  -- The do-while loop of `read` over `tmp`, `out_buffer` and `read_size`. A negative count becomes
  -- a huge one where `append` and `read_size` take it as `size_t`.
  pub read_all_loop : ℕ → IoWrapper → Bytes → Bytes → ℕ → World → Option (Bytes × ℕ × World)
  read_all_loop zero self tmp out_buffer read_size w = none
  read_all_loop (suc fuel) self tmp out_buffer read_size w =
      let (t, w') = libcapio_read K self.file_descriptor self.chunk_size w in
      let tmp' = overwrite t.stored tmp in
      let out_buffer' = out_buffer ++ take (to_size t.result) tmp' in
      let read_size' = add_size read_size t.result in
      let more = read_all_loop fuel self tmp' out_buffer' read_size' w' in
      if is_positive t.result then more else some (out_buffer', read_size', w')

-- The bytes of the literal "\0", its end included.
abbrev pub literal_size : ℕ
literal_size = 2

-- What `libcapio_read(fd, out_buffer.data() + read_size, n)` does to `out_buffer`: a byte stored
-- behind its end is undefined behaviour.
pub store_at : ℕ → Bytes → Bytes → Outcome Bytes
store_at offset [] buf = ok buf
store_at offset (b ∷ stored) buf =
    if ltb (length buf) (offset + length (b ∷ stored))
    then undefined
    else ok (take offset buf ++ overwrite (b ∷ stored) (drop offset buf))

pub wrap_outcome : IoMode → Outcome Bytes → Outcome ReturnType
unfolding wrap
wrap_outcome mode (ok s) = ok (wrap mode s)
wrap_outcome mode (raised e) = raised e
wrap_outcome mode undefined = undefined

module _ (K : Capio) where
  open K use {World}

  pub read_into :
      IoMode → ℕ → ℕ → IoWrapper → World → Outcome Bytes → Outcome ReturnType × IoWrapper × World
  unfolding store_at wrap_outcome
  read_into mode size read_size self w (raised e) = (raised e, self, w)
  read_into mode size read_size self w undefined = (undefined, self, w)
  read_into mode size read_size self w (ok out_buffer) =
      let (t, w') = libcapio_read K self.file_descriptor size w in
      let read_size' = add_size read_size t.result in
      let done : Outcome ReturnType = elim (store_at read_size t.stored out_buffer) [
        | ok filled ↦ wrap_outcome mode (resize read_size' filled)
        | raised e ↦ raised e
        | undefined ↦ undefined
      ] in
      (done, self, w')

  -- `read(size)` where `size` is neither 0 nor -1. The string is resized to `size`, also where the
  -- bytes that were buffered are more.
  pub read_sized : IoMode → ℤ → IoWrapper → World → Outcome ReturnType × IoWrapper × World
  unfolding read_into
  read_sized mode size self w =
      read_into mode (to_size size) (length self.buffer) (record self { buffer = [] }) w
        (resize (to_size size) self.buffer)

  -- `read(size)`. For -1 the constructor of `tmp` copies `_chunk_size` bytes from the literal "\0",
  -- which has two: copying more is undefined behaviour.
  pub read : ℕ → IoMode → ℤ → IoWrapper → World → Option (Outcome ReturnType × IoWrapper × World)
  unfolding read_all_loop wrap_outcome read_sized wrap
  read fuel mode size self w =
      if eq_ℤ size (pos 0)
      then some (ok (wrap mode []), self, w)
      else if eq_ℤ size (negsuc 0)
      then if ltb literal_size self.chunk_size
        then some (undefined, self, w)
        else elim (read_all_loop K fuel self (replicate self.chunk_size 0) self.buffer
            (length self.buffer) w) [
              | none ↦ none
              | some (out_buffer, read_size, w') ↦
                  some (
                    wrap_outcome mode (resize read_size out_buffer),
                    record self { buffer = [] },
                    w',
                  )
            ]
      else some (read_sized mode size self w)
