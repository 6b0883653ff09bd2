-- ===== src/Proxies/Calls.antt =====
-- pycapio/__init__.py, lines 110-257: the proxies. Python's own functions and `abspath` are the
-- parameter `Builtins`; `dir` is `_CAPIO_DIR`, and `initialized` is the global `libcapio_initialized`.
use py_capio.Base.{
  ℕ, ℤ, Bytes, Bool, Option, none, some, List, [], map, Outcome, ok, raised, undefined,
  if◌then◌else◌,
}
use py_capio.Posix.{Capio}
use py_capio.FsPath.{contains}
use py_capio.IoWrapper.{IoMode, text, binary, IoWrapper}
use py_capio.Scandir.{ScandirIteratorWrapper, CapioDirEntry, open_dir, collect, close}
use py_capio.PyModule.{init}
use py_capio.PyModule.Functions.{pycapio_open, pycapio_mkdir}
use py_capio.Proxies.{capio, builtin, proxy_route, open_route, pycapio_flags}

-- A file object, of this module or of Python; an iterator over a directory likewise.
pub data File (F : Type 0) : Type 0 where
  capio_file : IoMode → IoWrapper → File F
  python_file : F → File F

pub data Iterator (F : Type 0) : Type 0 where
  capio_iterator : ScandirIteratorWrapper → Iterator F
  python_iterator : F → Iterator F

pub record Builtins (World : Type 0) : Type 1 where
  pub Object : Type 0
  pub abspath : Bytes → Bytes
  pub builtins_open : Bytes → Bytes → World → Outcome Object × World
  pub os_mkdir : Bytes → ℕ → World → Outcome ℤ × World
  pub os_makedirs : Bytes → ℕ → World → Outcome ℤ × World
  pub os_scandir : Bytes → World → Outcome Object × World
  pub os_listdir : Bytes → World → Outcome (List Bytes) × World

abbrev pub map_outcome {ℓ κ} : {A : Type ℓ} {B : Type κ} → (A → B) → Outcome A → Outcome B
map_outcome f (ok a) = ok (f a)
map_outcome f (raised e) = raised e
map_outcome f undefined = undefined

-- The mode of the file object
abbrev pub io_mode : Bytes → IoMode
io_mode flags_str = if contains b'b' flags_str then binary else text

module _ (K : Capio) (B : Builtins K.World) (dir : Option Bytes) (initialized : Bool) where
  open K use {World}

  -- A path and a mode; the descriptor is taken as it comes, an error's too.
  unfoldable pub open_proxy : Bytes → Bytes → World → Outcome (File B.Object) × World
  open_proxy path flags_str w =
      let target_path = B.abspath path in
      elim (open_route dir target_path) [
        | builtin ↦
            let (r, w') = B.builtins_open path flags_str w in (map_outcome python_file r, w')
        | capio ↦
            let (fd, w') = pycapio_open K target_path (pycapio_flags flags_str) (some 0o777) w in
            (ok (capio_file (io_mode flags_str) (init (io_mode flags_str) fd none)), w')
      ]

  unfoldable pub mkdir_proxy : Bytes → ℕ → World → Outcome ℤ × World
  mkdir_proxy path_val mode w = elim (proxy_route dir (B.abspath path_val)) [
    | builtin ↦ B.os_mkdir path_val mode w
    | capio ↦ pycapio_mkdir K (B.abspath path_val) (some mode) w
  ]

  unfoldable pub makedirs_proxy : Bytes → ℕ → World → Outcome ℤ × World
  makedirs_proxy path_val mode w = elim (proxy_route dir (B.abspath path_val)) [
    | builtin ↦ B.os_makedirs path_val mode w
    | capio ↦ pycapio_mkdir K (B.abspath path_val) (some mode) w
  ]

  unfoldable pub scandir_proxy : Bytes → World → Outcome (Iterator B.Object) × World
  scandir_proxy path w = elim (proxy_route dir (B.abspath path)) [
    | builtin ↦ let (r, w') = B.os_scandir path w in (map_outcome python_iterator r, w')
    | capio ↦ let (r, w') = open_dir K initialized path w in (map_outcome capio_iterator r, w')
  ]

  -- The `for` loop over a new iterator, which its end or an exception destroys.
  unfoldable pub listed :
      ℕ → ℕ → Outcome ScandirIteratorWrapper × World → Option (Outcome (List Bytes) × World)
  listed rounds fuel (raised e, w) = some (raised e, w)
  listed rounds fuel (undefined, w) = some (undefined, w)
  listed rounds fuel (ok self, w) = elim (collect K rounds fuel [] self w) [
    | none ↦ none
    | some (r, self', w') ↦
        some (map_outcome (map (λ (e : CapioDirEntry). e.name)) r, (close K self' w').1)
  ]

  unfoldable pub listdir_proxy : ℕ → ℕ → Bytes → World → Option (Outcome (List Bytes) × World)
  unfolding listed
  listdir_proxy rounds fuel path w =
      let dirpath = B.abspath path in
      elim (proxy_route dir dirpath) [
        | builtin ↦ some (B.os_listdir dirpath w)
        | capio ↦ listed rounds fuel (open_dir K initialized dirpath w)
      ]
