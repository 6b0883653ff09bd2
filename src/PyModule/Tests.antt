-- ===== src/PyModule/Tests.antt =====
-- A `with` block over a file in memory, left by an exception, and runs of the other calls.
use py_capio.Base.{
  Outcome, codes, map, List, some, ℤ, negsuc, Bool, ℕ, arith, ◌+◌, ◌≡◌, refl, pos, true, false,
  none, [], ◌∷◌, raised, stop_iteration, Bytes, find, resized, overwrite,
}
use py_capio.Posix.{libcapio_read, libcapio_write, libcapio_close}
use py_capio.Posix.Sample.{memory-IsReadable, Disk, memory, disk}
use py_capio.IoWrapper.{IoWrapper, text, readline_loop, readline, readline_raw, next, received, new}
use py_capio.IoWrapper.Output.{write, close}
use py_capio.IoWrapper.Closing.{CountsCloses}
use py_capio.PyModule.Reader.{
  Ask, as_call, asks_read, asks_readline, asks_next, asks_fileno, asks_readlines, Agrees,
}
use py_capio.PyModule.Session.{promises, session, session-promises}
use py_capio.PyModule.Ending.{promised_block, with_block-ends}
use py_capio.PyModule.{
  init, invoke, block, with_block, write_call, readline_call, next_call, seek_call,
}
use py_capio.PyModule.Writing
use py_capio.PyModule.Writing.{writes, writes_lines, with_block-Wrote}
use py_capio.IoWrapper.Output.Laws.{Wrote}
use py_capio.Scandir.{ScandirIteratorWrapper}
use py_capio.Scandir.Tests.{memory-IsDirectory}
use py_capio.PyModule.Directory.{with_scan}
use py_capio.PyModule.Directory.Listing.{
  ScanAsk, asks_iter, asks_next, asks_enter, as_scan_call, listing, to_show, with_scan-listing,
}
use py_capio.IoWrapper.Tests.{memory-IsWritable}

reads_keep : (fd : ℤ) (size : ℕ) (w : Disk) → (memory.read_handler fd size w).1.closes ≡ w.closes
reads_keep fd size w = ground arith

pub memory-CountsCloses : CountsCloses memory (λ w. w.closes)
memory-CountsCloses = record {
  reading = record { reads = λ fd size w. reads_keep fd size w; glibc_reads = λ fd size w. refl };
  writes = λ fd s w. refl;
  glibc_writes = λ fd s w. refl;
  seeks = λ fd offset whence w. refl;
  flushes = λ w. refl;
  closing = λ fd w. refl;
}

abbrev line : Bytes
line = 97 ∷ 98 ∷ 10 ∷ []

abbrev blank : Disk
blank = record disk { rest = [] }

abbrev file : IoWrapper
file = record {
  file_descriptor = pos 3;
  chunk_size = 4096;
  buffer = [];
  closed = false;
  exhausted = false;
}

makes : init text (pos 3) none ≡ file
unfolding init new
makes = refl

-- The third call raises; the fourth is not made.
left_by_exception :
    with_block memory 9 text
      (write_call line ∷ readline_call ∷ next_call ∷ seek_call none none ∷ [])
      file
      blank
    ≡ some (
      raised stop_iteration,
      record file { closed = true; exhausted = true },
      record disk { rest = []; written = line; closes = 1 },
    )
unfolding with_block block invoke readline readline_raw next readline_loop received resized
    overwrite find write close libcapio_read libcapio_write libcapio_close
left_by_exception = refl

with_block-Wrote_example :
    let xs = writes (codes "ab") ∷ writes_lines (codes "c" ∷ codes "d" ∷ []) ∷ [] in
    (r : Outcome (Unit {0})) × (self' : IoWrapper) × (w' : Disk) × (with_block memory 0 text
        (map Writing.as_call xs)
        file
        disk
      ≡ some (r, self', w'))
    × Wrote memory (λ w. w.written) (codes "abcd") disk (r, w')
    × (self'.closed ≡ true)
    × (w'.closes ≡ 0 + 1)
with_block-Wrote_example =
    with_block-Wrote memory (λ w. w.written) 0 text (λ w. w.closes)
      (writes (codes "ab") ∷ writes_lines (codes "c" ∷ codes "d" ∷ []) ∷ []) file disk
      memory-IsWritable memory-CountsCloses (λ fd w. refl) refl

abbrev asks : List Ask
asks = asks_readline ∷ asks_next ∷ asks_fileno ∷ asks_next ∷ asks_next ∷ asks_readlines ∷ []

-- The block ends at the end of the iteration.
with_block-ends_example :
    let promise =
      promised_block text (pos 3) false asks (record { text = disk.rest; over = false }) in
    (self' : IoWrapper) × (w' : Disk) × (with_block memory 9 text (map as_call asks) file disk
      ≡ some (promise.0, self', w'))
    × (self'.closed ≡ true)
    × (w'.closes ≡ 0 + 1)
with_block-ends_example =
    with_block-ends memory (λ w. w.rest) 9 text (λ w. w.closes) asks file disk memory-IsReadable
      memory-CountsCloses (omega arith) (omega arith) (omega arith) refl refl

-- The answers: "ab\n", "c\n", the rest, the end of the iteration, and no lines.
abbrev small : IoWrapper
small = record file { chunk_size = 2 }

abbrev more_asks : List Ask
more_asks = asks_readline ∷ asks_next ∷ asks_read ∷ asks_next ∷ asks_readlines ∷ []

session-promises_example :
    let x = promises text (pos 3) false more_asks (record { text = disk.rest; over = false }) in
    Agrees memory (λ w. w.rest) 9 text x small (session memory 9 text more_asks small disk)
session-promises_example =
    session-promises memory 9 text (λ w. w.rest) more_asks small disk memory-IsReadable
      (omega arith) (omega arith) (omega arith) refl

abbrev scanned : ScandirIteratorWrapper
scanned = record { path = codes "/capio"; file_descriptor = pos 3; finished = false }

abbrev scan_asks : List ScanAsk
scan_asks = asks_enter ∷ asks_next ∷ asks_next ∷ asks_iter ∷ asks_next ∷ []

-- One entry behind ".", and then the end of the iteration, also when asked again.
with_scan-listing_example :
    (over : Bool) × (w' : Disk) × (with_scan memory 4 (map as_scan_call scan_asks) scanned disk
      ≡ some (
        (listing scan_asks (to_show memory (λ w. w.entries) scanned disk)).0,
        record scanned { file_descriptor = negsuc 0; finished = over },
        (libcapio_close memory (pos 3) w').1,
      ))
    × (to_show memory (λ w. w.entries) (record scanned { finished = over }) w'
        ≡ (listing scan_asks (to_show memory (λ w. w.entries) scanned disk)).1)
with_scan-listing_example =
    with_scan-listing memory (λ w. w.entries) 4 scan_asks scanned disk memory-IsDirectory (λ e. cc)
      (omega arith)
