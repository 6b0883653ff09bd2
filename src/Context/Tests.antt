-- ===== src/Context/Tests.antt =====
-- A decorated function that binds the names itself, and its caller, which raises.
use py_capio.Base.{◌≤◌, if◌then◌else◌, ℕ, ◌≡◌, refl, pos, true, false, none, [], stop_iteration}
use py_capio.Server.Tests.{host, config, blank}
use py_capio.Server.Attaching.{attached, departed}
use py_capio.Server.Lifecycle.{KillsOwn}
use py_capio.Context.Program.{departing, in_python, departing-exec}
use py_capio.Context.{
  ProxyFunctions, Bindings, Interpreter, Settings, Body, ends, raises, rebinds, calls, exec,
}
use py_capio.Context.Restoring.{exec-bindings}

abbrev proxies : ProxyFunctions ℕ
proxies = record {
  open_proxy = 1;
  mkdir_proxy = 1;
  makedirs_proxy = 1;
  scandir_proxy = 1;
  listdir_proxy = 1;
  py_capio_path = 1;
}

abbrev all : ℕ → Bindings ℕ
all n = record {
  builtins_open = n;
  mkdir = n;
  makedirs = n;
  scandir = n;
  io_open = n;
  listdir = n;
  path = n;
}

abbrev python : Interpreter ℕ
python = record {
  bindings = all 0;
  py_capio_initialized = false;
  capio_dir = none;
  at_exit = [];
  process = blank;
}

abbrev settings : Settings
settings = record { config = config; silent = true; teardown_server = true }

abbrev body : Body ℕ
body = calls settings (rebinds (all 2) ends) (calls settings ends (raises stop_iteration))

exec-bindings_example : (exec ℕ proxies (λ p. p) (host (pos 77)) body python).1.bindings ≡ all 0
exec-bindings_example = exec-bindings ℕ proxies (λ p. p) (host (pos 77)) body python refl

departing-exec_example :
    let (e, s') = exec ℕ proxies (λ p. p) (host (pos 77)) body python in
    let p = departing (e, s') in
    KillsOwn p.history
    × (attached p.history ≤ 1)
    × (departed p.history ≡ (if in_python e then attached p.history else 0))
    × (p.libcapio_initialized ≡ (if in_python e then false else s'.py_capio_initialized))
departing-exec_example =
    departing-exec ℕ proxies (λ p. p) (host (pos 77)) body python refl refl refl refl refl
