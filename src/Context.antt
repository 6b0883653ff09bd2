-- ===== src/Context.antt =====
-- pycapio/__init__.py, lines 48-107 and 260-337: `CapioContext`, which binds Python's functions on
-- files to the proxies while a function runs. The interpreter's state is passed along; `abspath` is
-- Python's own, the proxies are a value of the type of callables `F`.
pub mod Restoring
pub mod Program
pub mod Starting
pub mod Tests
use py_capio.Base.{
  Bytes, Bool, true, false, Option, none, some, List, [], ◌∷◌, codes, if◌then◌else◌, Outcome, ok,
  raised, undefined, Exception,
}
use py_capio.Server.{
  Host, Process, Config, Image, Run, returned, threw, became, setenv, libcapio_init,
}

-- The names that are patched, as `_dump_context` lists them.
pub record Bindings (F : Type 0) : Type 0 where
  pub builtins_open : F
  pub mkdir : F
  pub makedirs : F
  pub scandir : F
  pub io_open : F
  pub listdir : F
  pub path : F

-- The bindings, the globals of the module, what is registered with `atexit`, and the process.
pub record Interpreter (F : Type 0) : Type 0 where
  pub bindings : Bindings F
  pub py_capio_initialized : Bool
  pub capio_dir : Option Bytes
  pub at_exit : List Bool
  pub process : Process

-- The functions that the names are bound to; `open` of `io` is that of `builtins`.
pub record ProxyFunctions (F : Type 0) : Type 0 where
  pub open_proxy : F
  pub mkdir_proxy : F
  pub makedirs_proxy : F
  pub scandir_proxy : F
  pub listdir_proxy : F
  pub py_capio_path : F

-- `_dump_context`, `_restore_context` and `_patch_context`, name by name.
abbrev pub dump_context : {F : Type 0} → Interpreter F → Bindings F
dump_context s = record {
  builtins_open = s.bindings.builtins_open;
  mkdir = s.bindings.mkdir;
  makedirs = s.bindings.makedirs;
  scandir = s.bindings.scandir;
  io_open = s.bindings.io_open;
  listdir = s.bindings.listdir;
  path = s.bindings.path;
}

abbrev pub restore_context : {F : Type 0} → Bindings F → Interpreter F → Interpreter F
restore_context context s = record s {
  bindings = record {
    builtins_open = context.builtins_open;
    mkdir = context.mkdir;
    makedirs = context.makedirs;
    scandir = context.scandir;
    io_open = context.io_open;
    listdir = context.listdir;
    path = context.path;
  };
}

abbrev pub patch_context : {F : Type 0} → ProxyFunctions F → Interpreter F → Interpreter F
patch_context proxies s = record s {
  bindings = record {
    builtins_open = proxies.open_proxy;
    mkdir = proxies.mkdir_proxy;
    makedirs = proxies.makedirs_proxy;
    scandir = proxies.scandir_proxy;
    io_open = proxies.open_proxy;
    listdir = proxies.listdir_proxy;
    path = proxies.py_capio_path;
  };
}

-- The arguments of `CapioContext`.
pub record Settings : Type 0 where
  pub config : Config
  pub silent : Bool
  pub teardown_server : Bool

-- How a call ends: in Python, or because the process has become another program.
pub data Exit (R : Type 0) : Type 0 where
  done : Outcome R → Exit R
  replaced : Image → Exit R

-- What the decorated functions do: bind names themselves, and call decorated functions.
pub data Body (F : Type 0) : Type 0 where
  ends : Body F
  raises : Exception → Body F
  rebinds : Bindings F → Body F → Body F
  calls : Settings → Body F → Body F → Body F

module _ (F : Type 0) (proxies : ProxyFunctions F) (abspath : Bytes → Bytes) (H : Host) where
  -- What is behind the call of `pycapio_init`: an exception leaves the module not initialised.
  unfoldable pub begin : Settings → Bytes → Interpreter F → Run × Process → Run × Interpreter F
  begin o dir s (returned z, p) = (
    returned z,
    record s {
      capio_dir = some dir;
      process = p;
      py_capio_initialized = true;
      at_exit = o.teardown_server ∷ s.at_exit;
    },
  )
  begin o dir s (run, p) = (run, record s { capio_dir = some dir; process = p })

  -- `if not py_capio_initialized`
  pub initialise : Settings → Interpreter F → Run × Interpreter F
  unfolding begin
  initialise o s =
      let dir = abspath o.config.dir in
      let begun = begin o dir s (libcapio_init H (record o.config { dir = dir }) s.process) in
      if s.py_capio_initialized then (returned s.process.capio_server_thread_id, s) else begun

  -- `SILENT`
  unfoldable pub silence : Settings → Interpreter F → Interpreter F
  silence o s = record s {
    process = record s.process {
      environ =
          setenv (codes "SILENT") (if o.silent then codes "ON" else codes "OFF") s.process.environ;
    };
  }

  -- The names are patched around `func`: `try: return func(...)`, `finally: _restore_context(context)`
  unfoldable pub patched :
      {R : Type 0}
      → (Interpreter F → Exit R × Interpreter F)
      → Run × Interpreter F
      → Exit R × Interpreter F
  patched func (returned z, s) =
      let context = dump_context s in
      let (r, s') = func (patch_context proxies s) in (r, restore_context context s')
  patched func (threw e, s) = (done (raised e), s)
  patched func (became image, s) = (replaced image, s)

  unfoldable pub wrapper :
      {R : Type 0}
      → Settings
      → (Interpreter F → Exit R × Interpreter F)
      → Interpreter F
      → Exit R × Interpreter F
  unfolding initialise silence patched
  wrapper o func s = patched func (initialise o (silence o s))

  -- The rest of a function behind a call, which an exception skips.
  pub go_on :
      (Interpreter F → Exit (Unit {0}) × Interpreter F)
      → Exit (Unit {0}) × Interpreter F
      → Exit (Unit {0}) × Interpreter F
  go_on rest (done (ok u), s) = rest s
  go_on rest (done (raised e), s) = (done (raised e), s)
  go_on rest (done undefined, s) = (done undefined, s)
  go_on rest (replaced image, s) = (replaced image, s)

  pub exec : Body F → Interpreter F → Exit (Unit {0}) × Interpreter F
  unfolding wrapper go_on
  exec ends s = (done (ok tt), s)
  exec (raises e) s = (done (raised e), s)
  exec (rebinds b rest) s = exec rest (record s { bindings = b })
  exec (calls o inner rest) s = go_on (exec rest) (wrapper o (exec inner) s)
