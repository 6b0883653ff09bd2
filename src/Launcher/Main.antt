-- ===== src/Launcher/Main.antt =====
-- pycapio/__main__.py, `main`: the parsed arguments, and the launcher's function under `CapioContext`,
-- which starts the server (Context), up to the end of the interpreter. What the script does with
-- the patched names and with decorated functions of its own is the parameter `script`.
pub mod Ending
use py_capio.Base.{
  Bytes, Bool, true, false, if◌then◌else◌, Option, List, [], ◌∷◌, codes, Outcome, ok, undefined,
}
use py_capio.Posix.{Capio}
use py_capio.Server.{Host}
use py_capio.Context.{
  ProxyFunctions, Bindings, Interpreter, Settings, Exit, done, Body, wrapper, exec,
}
use py_capio.PyModule.{given}
use py_capio.Launcher.{
  Runpy, Finish, returns, interrupted, crashed, exits, raises, pycapio_launcher,
}

-- What `parse_args` gives, with `none` for an option that is left out.
pub record Arguments : Type 0 where
  pub capio_dir : Option Bytes
  pub workflow_name : Option Bytes
  pub app_name : Option Bytes
  pub capio_cl : Option Bytes
  pub script_path : Bytes
  pub script_args : List Bytes

-- The arguments of `CapioContext`; the others have its defaults, and the default names are constants
-- of CAPIO.
abbrev pub settings_of : (default_app_name default_workflow_name : Bytes) → Arguments → Settings
settings_of default_app_name default_workflow_name a = record {
  config = record {
    dir = given a.capio_dir (codes ".");
    app_name = given a.app_name default_app_name;
    workflow_name = given a.workflow_name default_workflow_name;
    exec_path = codes "capio_server";
    cl_config = given a.capio_cl [];
    await_seconds = 2;
  };
  silent = true;
  teardown_server = true;
}

-- `sys.argv`
abbrev pub script_argv : Arguments → List Bytes
script_argv a = a.script_path ∷ a.script_args

-- How the script ended, with `sys.argv`, `sys.path` and the world that it left.
abbrev pub Launched : Type 0 → Type 0
Launched World = List Bytes × Finish × List Bytes × World

abbrev pub ran : {World : Type 0} → List Bytes → Finish × List Bytes × World → Exit (Launched World)
ran argv (crashed, sys_path, w) = done undefined
ran argv (finish, sys_path, w) = done (ok (argv, finish, sys_path, w))

-- An exception in front of the run leaves the script out.
abbrev pub has_run : Finish → Bool
has_run returns = true
has_run interrupted = true
has_run (exits code) = true
has_run crashed = false
has_run (raises e) = false

module _ (F : Type 0) (proxies : ProxyFunctions F) (abspath : Bytes → Bytes) (H : Host) (K : Capio)
    (R : Runpy K.World) (script : Body F) (cwd default_app_name default_workflow_name : Bytes) where
  open K use {World}

  -- `_pycapio_launcher`, in the interpreter of the decorated call.
  abbrev pub launch_script :
      Arguments → List Bytes → World → Interpreter F → Exit (Launched World) × Interpreter F
  launch_script a sys_path w s =
      let r = pycapio_launcher K R cwd a.script_path sys_path w in
      (ran (script_argv a) r, if has_run r.0 then (exec F proxies abspath H script s).1 else s)

  unfoldable pub main :
      Arguments → List Bytes → World → Interpreter F → Exit (Launched World) × Interpreter F
  unfolding wrapper
  main a sys_path w s =
      wrapper F proxies abspath H (settings_of default_app_name default_workflow_name a)
        (launch_script a sys_path w) s
