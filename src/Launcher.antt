-- ===== src/Launcher.antt =====
-- pycapio/__main__.py, lines 63-102: the launcher's function, which runs a script or a module inside
-- CapioContext. There `os.path` is `PyCapioPath` (OsPath), so the tests of the path are CAPIO's. The
-- two calls of `runpy` are the parameter `Runpy`; messages are left out.
pub mod Running
pub mod Main
pub mod Tests
use py_capio.Base.{
  ℕ, ℤ, pos, Bytes, Bool, true, false, Option, none, some, List, [], ◌∷◌, codes, bytes_eq, ◌||◌,
  if◌then◌else◌, Outcome, ok, raised, undefined, Exception,
}
use py_capio.Posix.{Capio}
use py_capio.OsPath.{exists, isdir, join, abspath, dirname}

-- What `code` of a `SystemExit` is, and `sys.exit` takes: a number, `None` or a text.
pub data ExitCode : Type 0 where
  status : ℤ → ExitCode
  unset : ExitCode
  text : Bytes → ExitCode

-- How a run of the script ends.
pub data Ran : Type 0 where
  completed keyboard_interrupt failed : Ran
  system_exit : ExitCode → Ran

pub record Runpy (World : Type 0) : Type 0 where
  pub run_path : Bytes → World → Ran × World
  pub run_module : Bytes → World → Ran × World

-- How the launcher ends: it returns, exits with a code, is interrupted, or an exception leaves it.
pub data Finish : Type 0 where
  returns interrupted crashed : Finish
  exits : ExitCode → Finish
  raises : Exception → Finish

abbrev pub contains_path : Bytes → List Bytes → Bool
contains_path p [] = false
contains_path p (q ∷ ps) = bytes_eq q p || contains_path p ps

-- `if script_dir not in sys.path`
abbrev pub add_path : Bytes → List Bytes → List Bytes
add_path dir sys_path = if contains_path dir sys_path then sys_path else dir ∷ sys_path

-- Which code an end of `run_module` gives.
abbrev pub module_finish : Ran → Finish
module_finish completed = returns
module_finish keyboard_interrupt = interrupted
module_finish failed = exits (status (pos 1))
module_finish (system_exit code) = exits code

module _ (K : Capio) (R : Runpy K.World) (cwd : Bytes) where
  open K use {World}

  -- The loop over the entry points of a package.
  unfoldable pub locate : Bytes → List Bytes → World → Outcome Bytes × World
  locate target [] w = (ok target, w)
  locate target (entry ∷ entries) w =
      let potential_main = join target entry in
      let (r, w') = exists K potential_main w in
      let rest = locate target entries w' in
      elim r [
        | ok there ↦ if there then (ok potential_main, w') else rest
        | raised e ↦ (raised e, w')
        | undefined ↦ (undefined, w')
      ]

  unfoldable pub entry_point : Bytes → World → Outcome Bytes × World
  unfolding locate
  entry_point target w =
      let (r, w') = isdir K target w in
      elim r [
        | ok is_package ↦
            if is_package
            then locate target (codes "__main__.py" ∷ codes "main.py" ∷ []) w'
            else (ok target, w')
        | raised e ↦ (raised e, w')
        | undefined ↦ (undefined, w')
      ]

  -- The run as a path, and as a module where that failed.
  unfoldable pub execute : Bytes → Bytes → World → Finish × World
  execute script_path target w =
      let (r, w') = R.run_path target w in
      elim r [
        | completed ↦ (returns, w')
        | keyboard_interrupt ↦ (exits (status (pos 0)), w')
        | system_exit code ↦ (exits code, w')
        | failed ↦ let (m, w'') = R.run_module script_path w' in (module_finish m, w'')
      ]

  -- The end of the run, with `sys.path` as the run found it.
  unfoldable pub launched : Bytes → List Bytes → Outcome Bytes × World → Finish × List Bytes × World
  unfolding execute
  launched script_path sys_path (raised e, w) = (raises e, sys_path, w)
  launched script_path sys_path (undefined, w) = (crashed, sys_path, w)
  launched script_path sys_path (ok target, w) = elim (abspath cwd (dirname target)) [
    | raised e ↦ (raises e, sys_path, w)
    | undefined ↦ (crashed, sys_path, w)
    | ok script_dir ↦
        let (finish, w') = execute script_path target w in
        (finish, add_path script_dir sys_path, w')
  ]

  unfoldable pub pycapio_launcher : Bytes → List Bytes → World → Finish × List Bytes × World
  unfolding entry_point launched
  pycapio_launcher script_path sys_path w =
      launched script_path sys_path (entry_point script_path w)
