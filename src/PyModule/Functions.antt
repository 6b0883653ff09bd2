-- ===== src/PyModule/Functions.antt =====
-- src/pycapio.cpp, lines 48-64: the functions of the module, with their defaults.
use py_capio.Base.{ℕ, ℤ, Bytes, Bool, false, Option, [], codes, ◌∷◌, Outcome}
use py_capio.Posix.{Capio, libcapio_open, libcapio_mkdir}
use py_capio.Server.{Host, Process, Run, libcapio_init, libcapio_teardown}
use py_capio.PyModule.{given}

-- `get_capio_dir` is CAPIO's.
unfoldable pub pycapio_get_capio_dir : {World : Type 0} → (World → Bytes) → World → Bytes
pycapio_get_capio_dir get_capio_dir w = get_capio_dir w

module _ (K : Capio) where
  open K use {World}

  unfoldable pub pycapio_open : Bytes → ℕ → Option ℕ → World → ℤ × World
  pycapio_open path flags mode w = libcapio_open K path flags (given mode 0) w

  unfoldable pub pycapio_mkdir : Bytes → Option ℕ → World → Outcome ℤ × World
  pycapio_mkdir path flags w = libcapio_mkdir K path (given flags 0x777) w

-- The arguments of `pycapio_init`, each given or not; the default names are constants of CAPIO.
pub record InitArguments : Type 0 where
  pub capio_dir : Option Bytes
  pub app_name : Option Bytes
  pub workflow_name : Option Bytes
  pub server_exec_path : Option Bytes
  pub cl_configuration_file : Option Bytes
  pub await_seconds : Option ℕ

unfoldable pub pycapio_init :
    Host
    → (default_app_name default_workflow_name : Bytes) → InitArguments
    → Process
    → Run × Process
pycapio_init H default_app_name default_workflow_name a p =
    libcapio_init H
      (record {
        dir = given a.capio_dir (b'.' ∷ []);
        app_name = given a.app_name default_app_name;
        workflow_name = given a.workflow_name default_workflow_name;
        exec_path = given a.server_exec_path (codes "capio_server");
        cl_config = given a.cl_configuration_file [];
        await_seconds = given a.await_seconds 2;
      })
      p

unfoldable pub pycapio_teardown : Option Bool → Process → Process
pycapio_teardown teardown_server p = libcapio_teardown (given teardown_server false) p
