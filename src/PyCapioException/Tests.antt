-- ===== src/PyCapioException/Tests.antt =====
-- The text of the exception of a failed write, where the interpreter has no `traceback`.
use py_capio.Base.{◌≡◌, pos, codes, [], some, false}
use py_capio.Posix.{Capio, libcapio_write}
use py_capio.Posix.Sample.{memory, disk}
use py_capio.IoWrapper.{IoWrapper}
use py_capio.IoWrapper.Output.{write}
use py_capio.PyCapioException.{Python, succeeded, error_already_set}
use py_capio.PyCapioException.Sizes.{told, has_returned, size_of-write}

abbrev python : Python
python = record {
  traceback = error_already_set (codes "ModuleNotFoundError");
  io = succeeded tt;
  string_io = succeeded tt;
  print_stack = succeeded tt;
  getvalue = succeeded [];
}

abbrev opened : IoWrapper
opened = record {
  file_descriptor = pos 3;
  chunk_size = 2;
  buffer = [];
  exhausted = false;
  closed = false;
}

-- A write of which one byte is taken.
abbrev short : Capio
short = record memory { write_handler = λ fd text w. (pos 1, w) }

size_of-write_example :
    let answer = write short opened (codes "ab") disk in
    (told python answer.0 ≡ some (pos 1)) × (has_returned answer.0 ≡ false) × (answer.1 ≡ disk)
unfolding libcapio_write
size_of-write_example = size_of-write short python opened (codes "ab") disk
