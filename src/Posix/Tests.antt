-- ===== src/Posix/Tests.antt =====
-- The skip code of the CAPIO in memory.
use py_capio.Base.{◌≡◌, refl, pos, negsuc, false, codes}
use py_capio.Posix.{
  Capio, libcapio_open, libcapio_read, libcapio_write, libcapio_close, libcapio_readdir,
  libcapio_mkdir, libcapio_lseek, libcapio_stat,
}
use py_capio.Posix.Sample.{memory, disk}
use py_capio.Posix.Skipping.{is_skip, skip_in, CodesApart, skip_hidden}

-- It declines to open, to seek and to close.
abbrev declining : Capio
declining = record memory {
  openat_handler = λ path flags w. (negsuc 1, w);
  lseek_handler = λ fd offset whence w. (negsuc 1, w);
  close_handler = λ fd w. (negsuc 1, w);
}

declining-CodesApart : CodesApart declining
declining-CodesApart = record {
  opens = λ path flags mode w. refl;
  reads = λ fd size w. refl;
  writes = λ fd buf w. refl;
  is_int = λ path flags w. refl;
}

skip_hidden_example :
    (is_skip declining (libcapio_open declining (codes "/d/x") 0 0 disk).0 ≡ false)
    × (is_skip declining (libcapio_read declining (pos 3) 4 disk).0.result ≡ false)
    × (is_skip declining (libcapio_write declining (pos 3) (codes "ab") disk).0 ≡ false)
    × (skip_in declining (λ r. r.0) (libcapio_readdir declining (pos 3) disk).0 ≡ false)
    × (skip_in declining (λ r. r) (libcapio_mkdir declining (codes "/d/x") 0 disk).0 ≡ false)
    × (skip_in declining (λ r. r) (libcapio_lseek declining (pos 3) (pos 0) 2 disk).0 ≡ false)
    × (skip_in declining (λ r. r.0) (libcapio_stat declining (codes "/d/x") disk).0 ≡ false)
    × (is_skip declining (libcapio_close declining (pos 3) disk).0
        ≡ is_skip declining (declining.close_handler (pos 3) disk).0)
skip_hidden_example =
    skip_hidden declining (codes "/d/x") (codes "ab") 0 0 4 2 (pos 3) (pos 0) disk
      declining-CodesApart
