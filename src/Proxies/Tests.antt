-- ===== src/Proxies/Tests.antt =====
-- The flags and the routes of some calls.
use Prim.Native.Nat.{bit_and}
use py_capio.Base.{
  List, ◌∷◌, false, map, pos, ok, raised, true, [], arith, filesystem_error, ◌≡◌, refl, none, some,
  codes,
}
use py_capio.Proxies.{
  capio, builtin, proxy_route, open_route, pycapio_flags, o_creat, o_append, o_rdwr,
}
use py_capio.Posix.{libcapio_open, libcapio_close, libcapio_write}
use py_capio.Posix.Sample.{Disk, memory, disk, memory-IsReadable}
use py_capio.IoWrapper.{IoWrapper, text, binary, new, wrap, readlines}
use py_capio.IoWrapper.Lines.{lines}
use py_capio.Scandir.Laws.{visible}
use py_capio.Scandir.Tests.{memory-IsDirectory}
use py_capio.Proxies.Calls.{Builtins, capio_file, open_proxy, listdir_proxy}
use py_capio.Proxies.Reading.{name_of, listdir_proxy-visible, open_proxy-readlines}
use py_capio.Proxies.Pipeline.{written-readlines}
use py_capio.IoWrapper.Tests.{memory-IsWritable}
use py_capio.PyModule.Tests.{memory-CountsCloses}
use py_capio.PyModule.{init, invoke, block, with_block}
use py_capio.PyModule.Writing.{Writing, writes, writes_lines, as_call, texts}
use py_capio.IoWrapper.Output.{write, writelines, close}
use py_capio.Proxies.Flags.{o_accmode, o_trunc, pycapio_flags-bits}

without_dir : (open_route none (codes "/d/x") ≡ capio) × (proxy_route none (codes "/d/x") ≡ builtin)
unfolding open_route proxy_route
without_dir = (refl, refl)

pycapio_flags-bits_example :
    let flags = pycapio_flags (codes "w+b") in
    (bit_and flags o_accmode ≡ o_rdwr)
    × (bit_and flags o_creat ≡ o_creat)
    × (bit_and flags o_append ≡ 0)
    × (bit_and flags o_trunc ≡ 0)
pycapio_flags-bits_example = pycapio_flags-bits (codes "w+b")

-- Python's own functions, which find nothing; every path is absolute.
abbrev nothing_found : Builtins Disk
nothing_found = record {
  Object = Unit;
  abspath = λ path. path;
  builtins_open = λ path flags w. (raised filesystem_error, w);
  os_mkdir = λ path mode w. (raised filesystem_error, w);
  os_makedirs = λ path mode w. (raised filesystem_error, w);
  os_scandir = λ path w. (raised filesystem_error, w);
  os_listdir = λ path w. (raised filesystem_error, w);
}

listdir_proxy-visible_example :
    (w'' : Disk) × (listdir_proxy memory nothing_found
        (some (codes "/d"))
        true
        5
        4
        (codes "/d/x")
        disk
      ≡ some (ok (map name_of (visible disk.entries)), (libcapio_close memory (pos 3) w'').1))
    × (w''.entries ≡ [])
unfolding proxy_route libcapio_open
listdir_proxy-visible_example =
    listdir_proxy-visible memory nothing_found (some (codes "/d")) true (λ w. w.entries) 5 4 3
      (codes "/d/x") disk disk memory-IsDirectory refl refl refl (omega arith) (omega arith)

open_proxy-readlines_example :
    (self self' : IoWrapper) × (w'' : Disk) × (open_proxy memory nothing_found
        (some (codes "/d"))
        true
        (codes "/d/x")
        (codes "rb")
        disk
      ≡ (ok (capio_file binary self), disk))
    × (readlines memory 9 9 binary self disk
        ≡ some (ok (map (wrap binary) (lines disk.rest)), self', w''))
    × (w''.rest ≡ [])
unfolding open_route libcapio_open
open_proxy-readlines_example =
    open_proxy-readlines memory nothing_found (some (codes "/d")) true (λ w. w.rest) 9 9 3
      (codes "/d/x") (codes "rb") disk disk memory-IsReadable refl refl (omega arith) (omega arith)

abbrev empty_disk : Disk
empty_disk = record disk { rest = [] }

abbrev saved : List Writing
saved = writes (codes "a") ∷ writes_lines ((10 ∷ []) ∷ codes "b" ∷ []) ∷ []

abbrev saved_disk : Disk
saved_disk = record disk { rest = texts saved; written = texts saved; closes = 1 }

abbrev writer : IoWrapper
writer = record {
  file_descriptor = pos 3;
  chunk_size = 4096;
  buffer = [];
  closed = false;
  exhausted = false;
}

saves :
    with_block memory 9 text (map as_call saved) (init text (pos 3) none) empty_disk
    ≡ some (ok tt, record writer { closed = true }, saved_disk)
unfolding with_block block invoke init new write writelines close libcapio_write libcapio_close
saves = refl

written-readlines_example :
    (reader reader' : IoWrapper) × (w4 : Disk) × (open_proxy memory nothing_found
        (some (codes "/d"))
        true
        (codes "/d/x")
        (codes "w")
        empty_disk
      ≡ (ok (capio_file text (init text (pos 3) none)), empty_disk))
    × (open_proxy memory nothing_found
          (some (codes "/d"))
          true
          (codes "/d/x")
          (codes "rb")
          saved_disk
        ≡ (ok (capio_file binary reader), saved_disk))
    × (readlines memory 9 9 binary reader saved_disk
        ≡ some (ok (map (wrap binary) (lines (texts saved))), reader', w4))
    × (w4.rest ≡ [])
unfolding open_route libcapio_open
written-readlines_example =
    written-readlines memory nothing_found (some (codes "/d")) true (λ w. w.written) (λ w. w.rest)
      (λ w. w.closes) 9 9 3 3 (codes "/d/x") (codes "w") (codes "rb") saved empty_disk empty_disk
      saved_disk saved_disk (record writer { closed = true }) refl refl memory-IsWritable
      memory-CountsCloses (λ fd w. refl) refl saves refl memory-IsReadable refl (omega arith)
      (omega arith)
