-- ===== src/IoWrapper/Tests.antt =====
-- Runs of the file object over a file in memory, and its theorems at concrete data.
use py_capio.Base.{
  List, ◌≡◌, refl, sym, ap, ◌∙◌, ◌++◌, inl, ℤ, pos, negsuc, Bytes, true, false, some, [], ◌∷◌, map,
  length, take, drop, take-append-drop, append_assoc, take_all, codes, find, resize, resized,
  overwrite, arith, ok, undefined,
}
use py_capio.Posix.{libcapio_read, libcapio_write}
use py_capio.Posix.Sample.{Disk, memory, memory-IsReadable, disk, tape, tape-IsReadable}
use py_capio.IoWrapper.{
  IoWrapper, text, binary, str, raw, wrap, next, readline, readlines, read, readline_loop,
  readline_raw, readlines_loop, received, read_all_loop, wrap_outcome,
}
use py_capio.IoWrapper.Lines.{concat, lines, line_of, rest_of}
use py_capio.IoWrapper.Ahead.{IsPositioned, write_ahead}
use py_capio.IoWrapper.Readline.{pending}
use py_capio.IoWrapper.Readlines.{readlines-lines}
use py_capio.IoWrapper.ReadAll.{read-pending, read_failing}
use py_capio.IoWrapper.ReadSized.{read-undefined}
use py_capio.IoWrapper.Chunks.{chunks, Fit, chunks-Fit}
use py_capio.IoWrapper.Output.{write, writelines}
use py_capio.IoWrapper.Output.Laws.{IsWritable, Wrote, writelines-Wrote}

abbrev rest : Disk → Bytes
rest w = w.rest

-- A wrapper that has read ahead the line "x" and the byte "y".
abbrev ahead : ℤ → IoWrapper
ahead fd = record {
  file_descriptor = fd;
  chunk_size = 4;
  buffer = codes "x" ++ (10 ∷ codes "y");
  closed = false;
  exhausted = false;
}

abbrev fresh : IoWrapper
fresh = record (ahead (pos 3)) { buffer = [] }

reads_lines :
    readlines memory 9 9 text fresh disk
    ≡ some (
      ok (str (97 ∷ 98 ∷ 10 ∷ []) ∷ str (99 ∷ 10 ∷ []) ∷ str (100 ∷ []) ∷ []),
      record fresh { exhausted = true },
      record disk { rest = [] },
    )
unfolding readlines readlines_loop next readline_raw readline_loop wrap received resized overwrite
    find libcapio_read
reads_lines = refl

-- A chunk within the literal of `read`.
abbrev small : IoWrapper
small = record (ahead (pos 3)) { chunk_size = 2 }

abbrev unreadable : IoWrapper
unreadable = record (ahead (pos 9)) { chunk_size = 2 }

reads_all :
    read memory 9 binary (negsuc 0) small disk
    ≡ some (
      ok (raw (codes "x" ++ (10 ∷ codes "y") ++ disk.rest)),
      record small { buffer = [] },
      record disk { rest = [] },
    )
unfolding read read_all_loop wrap wrap_outcome resize resized overwrite libcapio_read
reads_all = refl

writes :
    writelines memory fresh (codes "a" ∷ codes "bc" ∷ []) disk
    ≡ (ok tt, record disk { rest = disk.rest ++ codes "abc"; written = codes "abc" })
unfolding writelines write libcapio_write
writes = refl

readlines-lines_example :
    (b : Bytes) × (w' : Disk) × (readlines memory 20 20 text (ahead (pos 3)) disk
      ≡ some (
        ok (map (wrap text) (lines (pending memory rest (ahead (pos 3)) disk))),
        record (ahead (pos 3)) { buffer = b; exhausted = true },
        w',
      ))
    × (b ++ w'.rest ≡ [])
readlines-lines_example =
    readlines-lines memory rest 20 20 text (ahead (pos 3)) disk memory-IsReadable (omega arith)
      (omega arith) (omega arith) refl

read-pending_example :
    (w' : Disk) × (read memory 20 text (negsuc 0) small disk
      ≡ some (ok (wrap text (pending memory rest small disk)), record small { buffer = [] }, w'))
    × (w'.rest ≡ [])
read-pending_example =
    read-pending memory rest 20 text small disk memory-IsReadable (omega arith) (omega arith)
      (omega arith)

read_failing_example :
    read memory 5 text (negsuc 0) unreadable disk
    ≡ some (ok (wrap text (codes "x" ++ (10 ∷ []))), record unreadable { buffer = [] }, disk)
unfolding libcapio_read
read_failing_example = read_failing memory 4 text unreadable disk disk refl (omega arith) refl

chunks-Fit_example :
    (ps : List Bytes) × (w' : Disk) × (chunks memory 5 text (4 ∷ 2 ∷ 8 ∷ []) fresh disk
      ≡ some (ok (map (wrap text) ps), fresh, w'))
    × (concat ps ++ w'.rest ≡ disk.rest)
    × Fit ps (4 ∷ 2 ∷ 8 ∷ []) w'.rest
chunks-Fit_example =
    chunks-Fit memory 5 text rest (4 ∷ 2 ∷ 8 ∷ []) fresh disk memory-IsReadable refl
      (omega arith, omega arith, (omega arith, omega arith, (omega arith, omega arith, tt)))

read-undefined_example :
    read memory 5 text (pos 4) (ahead (pos 3)) disk
    ≡ some (undefined, record (ahead (pos 3)) { buffer = [] }, record disk { rest = 10 ∷ 100 ∷ [] })
unfolding libcapio_read
read-undefined_example =
    read-undefined memory 5 text 4 (ahead (pos 3)) disk (record disk { rest = 10 ∷ 100 ∷ [] })
      (97 ∷ 98 ∷ 10 ∷ 99 ∷ []) (omega arith) (omega arith) refl (λ e. cc) (omega arith)

pub memory-IsWritable : IsWritable memory (pos 3) (λ w. w.written)
memory-IsWritable = record {
  served = λ text w. inl (
    (λ e. cc),
    record {
      appended = length text;
      within = omega arith;
      in_order = ap (λ t. w.written ++ t) (sym (take_all (length text) text (omega arith)));
      counted = inl refl;
    },
  );
}

writelines-Wrote_example :
    Wrote memory
      (λ w. w.written)
      (codes "abc")
      disk
      (writelines memory fresh (codes "a" ∷ codes "bc" ∷ []) disk)
writelines-Wrote_example =
    writelines-Wrote memory (λ w. w.written) fresh (codes "a" ∷ codes "bc" ∷ []) disk
      memory-IsWritable

abbrev blank : Disk
blank = record disk { rest = []; written = [] }

abbrev two_lines : List Bytes
two_lines = (97 ∷ 10 ∷ []) ∷ (98 ∷ 99 ∷ 10 ∷ []) ∷ []

abbrev filled : Disk
filled = record blank { rest = concat two_lines; written = concat two_lines }

tape-IsPositioned : IsPositioned tape (pos 3) (λ w. w.written) rest
tape-IsPositioned = record {
  reading = record {
    reads = λ fd size w.
        append_assoc w.written (take size w.rest) (drop size w.rest)
        ∙ ap (λ t. w.written ++ t) (take-append-drop size w.rest);
    glibc_reads = λ fd size w. refl;
  };
  counted = λ s w. refl;
  counts = λ n e. cc;
  put = λ s w. refl;
  covered = λ s w. refl;
}

-- The file is "ab\nc\nd", and "c" is read ahead: the write goes over the newline behind it.
write_ahead_example :
    (b : Bytes) × (w1 w2 : Disk) × (readline tape 9 text fresh disk
      ≡ some (wrap text (line_of disk.rest), record fresh { buffer = b }, w1))
    × (write tape (record fresh { buffer = b }) (codes "X") w1 ≡ (ok (pos 1), w2))
    × (b ++ w1.rest ≡ rest_of disk.rest)
    × (w2.written ++ w2.rest ≡ [] ++ (line_of disk.rest ++ (b ++ (codes "X" ++ drop 1 w1.rest))))
write_ahead_example =
    write_ahead tape (λ w. w.written) rest 9 text fresh (codes "X") disk tape-IsReadable
      tape-IsPositioned (omega arith) (omega arith) refl
