-- ===== src/Launcher/Tests.antt =====
-- Launches of a script that fails as a path and as a module, in a CAPIO in memory that has one
-- regular file under every path.
use py_capio.Base.{
  some, ℕ, bytes_eq, true, false, none, if◌then◌else◌, ◌≡◌, refl, pos, some, [], ◌∷◌, codes,
  filesystem_error,
}
use py_capio.Posix.{Capio, libcapio_stat}
use py_capio.Posix.Sample.{Disk, memory, disk}
use py_capio.FsPath.{filename, is_absolute}
use py_capio.OsPath.{exists, isdir, isfile, join}
use py_capio.Launcher.{
  status, Runpy, failed, system_exit, exits, raises, locate, entry_point, pycapio_launcher,
}
use py_capio.Server.{Host}
use py_capio.Server.Tests.{host, blank, config}
use py_capio.Context.{ProxyFunctions, Bindings, Interpreter, Body, Settings, ends, rebinds, calls}
use py_capio.Context.Program.{departing, in_python}
use py_capio.Launcher.Main.{Arguments, main, ran}
use py_capio.Launcher.Main.Ending.{start, launched_by, ended, main_server}
use py_capio.Launcher.Running.{pycapio_launcher-script, pycapio_launcher_bare}

abbrev plain_file : Capio
plain_file = record memory {
  lstat_handler = λ path w. (pos 0, some (record { st_mode = 0o100644; st_size = 6 }), w);
}

abbrev runpy : Runpy Disk
runpy = record {
  run_path = λ target w. (failed, w);
  run_module = λ name w. (system_exit (status (pos 4)), record w { rest = [] });
}

pycapio_launcher-script_example :
    pycapio_launcher plain_file runpy
      (codes "/")
      (join (codes "/d") (codes "f"))
      (codes "/d" ∷ [])
      disk
    ≡ (exits (status (pos 4)), codes "/d" ∷ [], record disk { rest = [] })
unfolding isfile libcapio_stat is_absolute filename
pycapio_launcher-script_example =
    pycapio_launcher-script plain_file runpy (codes "/") (codes "/d") (codes "f") (codes "/d" ∷ [])
      disk disk refl refl refl refl refl

-- A module, of which no file is there.
pycapio_launcher_bare_example :
    pycapio_launcher memory runpy (codes "/") (codes "json") [] disk
    ≡ (raises filesystem_error, [], disk)
unfolding entry_point locate isdir isfile exists join libcapio_stat
pycapio_launcher_bare_example =
    pycapio_launcher_bare memory runpy (codes "/") (codes "json") [] disk disk refl refl refl

abbrev proxies : ProxyFunctions ℕ
proxies = record {
  open_proxy = 1;
  mkdir_proxy = 1;
  makedirs_proxy = 1;
  scandir_proxy = 1;
  listdir_proxy = 1;
  py_capio_path = 1;
}

abbrev all : Bindings ℕ
all = record {
  builtins_open = 0;
  mkdir = 0;
  makedirs = 0;
  scandir = 0;
  io_open = 0;
  listdir = 0;
  path = 0;
}

-- The executable is "/capio_server", and PATH has "/".
abbrev root_host : Host
root_host = record (host (pos 77)) {
  file_exists = λ h path. some (bytes_eq path (codes "/capio_server"));
}

abbrev fresh : Interpreter ℕ
fresh = record {
  bindings = all;
  py_capio_initialized = false;
  capio_dir = none;
  at_exit = [];
  process = record blank { environ = (codes "PATH", codes "/") ∷ [] };
}

abbrev arguments : Arguments
arguments = record {
  capio_dir = none;
  workflow_name = some (codes "w");
  app_name = none;
  capio_cl = none;
  script_path = codes "/d/f";
  script_args = codes "-v" ∷ [];
}

abbrev settings : Settings
settings = record { config = config; silent = true; teardown_server = false }

-- The script binds the names, and calls a decorated function.
abbrev script : Body ℕ
script = rebinds (record all { path = 5 }) (calls settings ends ends)

main_server_example :
    let (run, q) =
      start ℕ proxies
        (λ p. p)
        root_host
        plain_file
        runpy
        script
        (codes "/")
        (codes "app")
        (codes "flow")
        arguments
        []
        disk
        fresh in
    let (e, s') =
      main ℕ proxies
        (λ p. p)
        root_host
        plain_file
        runpy
        script
        (codes "/")
        (codes "app")
        (codes "flow")
        arguments
        []
        disk
        fresh in
    (e
      ≡ launched_by run (
          ran
            (codes "/d/f" ∷ codes "-v" ∷ [])
            (pycapio_launcher plain_file runpy (codes "/") (codes "/d/f") [] disk)))
    × (s'.bindings ≡ all)
    × ((departing (e, s')).history ≡ (if in_python e then ended run q.history else q.history))
main_server_example =
    main_server ℕ proxies (λ p. p) root_host plain_file runpy script (codes "/") (codes "app")
      (codes "flow") arguments [] disk fresh refl refl
