-- ===== src/Posix/Sample.antt =====
-- A CAPIO in memory: one file, written at its end and read from where the reader stands, and one
-- directory; descriptor 9 fails. It meets the assumptions on the parameter, and runs in the tests.
use py_capio.Base.{
  ℕ, zero, suc, ◌≤◌, ◌<◌, ◌≡◌, refl, sym, ℤ, pos, negsuc, eq_ℤ, Bytes, Option, none, some, List, [],
  ◌∷◌, ◌++◌, length, take, drop, take-append-drop, inl, if◌then◌else◌, arith,
}
use py_capio.Posix.{Capio, Dirent}
use py_capio.Posix.Laws.{IsReadable}

pub record Disk : Type 0 where
  pub rest : Bytes
  pub written : Bytes
  pub entries : List Dirent
  pub closes : ℕ

abbrev pub getdents : List Dirent → Disk → ℤ × Option Dirent × Disk
getdents [] w = (pos 0, none, record w { entries = [] })
getdents (d ∷ ds) w = (pos 1, some d, record w { entries = ds })

abbrev pub memory : Capio
memory = record {
  World = Disk;
  request_skip = negsuc 1;
  errno = λ w. 2;
  openat_handler = λ path flags w. (pos 3, w);
  glibc_open = λ path flags mode w. (negsuc 0, w);
  read_handler = λ fd size w.
      if eq_ℤ fd (pos 9) then (record { result = negsuc 0; stored = [] }, w) else (
        record { result = pos (length (take size w.rest)); stored = take size w.rest },
        record w { rest = drop size w.rest },
      );
  glibc_read = λ fd size w. (record { result = negsuc 0; stored = [] }, w);
  write_handler = λ fd text w.
      (pos (length text), record w { rest = w.rest ++ text; written = w.written ++ text });
  glibc_write = λ fd text w. (negsuc 0, w);
  close_handler = λ fd w. (pos 0, record w { closes = suc w.closes });
  getdents_handler = λ fd w. if eq_ℤ fd (pos 9) then (negsuc 0, none, w) else getdents w.entries w;
  mkdir_handler = λ path mode w. (pos 0, w);
  lseek_handler = λ fd offset whence w. (pos 0, w);
  lstat_handler = λ path w. (negsuc 0, none, w);
  flush_read_cache = λ w. w;
  flush_write_cache = λ w. w;
}

length-take-le : (n : ℕ) (s : Bytes) → length (take n s) ≤ n
length-take-le zero s = omega arith
length-take-le (suc n) [] = omega arith
length-take-le (suc n) (c ∷ s) = omega (arith, length-take-le n s)

take_nothing : (n : ℕ) (s : Bytes) → take n s ≡ [] → 0 < n → s ≡ []
take_nothing zero s h p = absurd (omega arith)
take_nothing (suc n) [] h p = refl
take_nothing (suc n) (c ∷ s) h p = cc

pub memory-IsReadable : IsReadable memory (pos 3) (λ w. w.rest)
memory-IsReadable = record {
  skip_negative = λ n e. cc;
  served = λ size w. inl (record {
    counted = refl;
    within = length-take-le size w.rest;
    in_order = sym (take-append-drop size w.rest);
    at_end = take_nothing size w.rest;
  });
}

abbrev pub disk : Disk
disk = record {
  rest = 97 ∷ 98 ∷ 10 ∷ 99 ∷ 10 ∷ 100 ∷ [];
  written = [];
  entries =
      record { d_name = 46 ∷ []; d_ino = 1; d_type = 4 }
      ∷ record { d_name = 102 ∷ []; d_ino = 2; d_type = 8 }
      ∷ [];
  closes = 0;
}

-- The same with a position: `written` is in front of it, `rest` behind it.
abbrev pub tape : Capio
tape = record memory {
  read_handler = λ fd size w. (
    record { result = pos (length (take size w.rest)); stored = take size w.rest },
    record w { rest = drop size w.rest; written = w.written ++ take size w.rest },
  );
  write_handler = λ fd text w. (
    pos (length text),
    record w { rest = drop (length text) w.rest; written = w.written ++ text },
  );
}

pub tape-IsReadable : IsReadable tape (pos 3) (λ w. w.rest)
tape-IsReadable = record {
  skip_negative = λ n e. cc;
  served = λ size w. inl (record {
    counted = refl;
    within = length-take-le size w.rest;
    in_order = sym (take-append-drop size w.rest);
    at_end = take_nothing size w.rest;
  });
}
