-- ===== src/Launcher/Running.antt =====
-- What the launcher of pycapio/__main__.py runs, and how it ends.
use py_capio.Base.{
  not, ◌≡◌, refl, ap, pos, Bytes, Bool, true, false, List, is_empty, Outcome, ok, raised, undefined,
  filesystem_error,
}
use py_capio.Posix.{Capio}
use py_capio.FsPath.{contains, slash, filename, is_absolute, parent_path, strip_slashes}
use py_capio.FsPath.{append_path}
use py_capio.FsPath.Laws.{
  append_path-component, parent_path-append, is_empty-filename, before_filename_none,
  strip_slashes-filename, filename_no_slash,
}
use py_capio.OsPath.Paths.{join-append_path}
use py_capio.OsPath.{isfile, isdir, join, abspath, dirname}
use py_capio.Launcher.{
  status, Ran, completed, keyboard_interrupt, failed, system_exit, Runpy, Finish, returns,
  interrupted, exits, raises, add_path, module_finish, entry_point, execute, launched,
  pycapio_launcher,
}

-- The end of the launcher, by those of the path, or of the module where the path failed.
abbrev pub end_of : Ran → Ran → Finish
end_of completed m = returns
end_of keyboard_interrupt m = exits (status (pos 0))
end_of (system_exit code) m = exits code
end_of failed completed = returns
end_of failed keyboard_interrupt = interrupted
end_of failed failed = exits (status (pos 1))
end_of failed (system_exit code) = exits code

abspath_absolute :
    (cwd d : Bytes) → is_absolute d ≡ true → is_empty d ≡ false → abspath cwd d ≡ ok d
unfolding abspath append_path
abspath_absolute cwd d absolute ne = rw (ne, absolute)

abspath-dirname :
    (cwd d f : Bytes)
    → is_absolute d ≡ true
    → is_empty (filename d) ≡ false
    → contains slash f ≡ false
    → is_empty f ≡ false
    → abspath cwd (dirname (join d f)) ≡ ok d
unfolding dirname
abspath-dirname cwd d f absolute named plain ne =
    let there = is_empty-filename d named in
    rw (
      join-append_path d f there ne,
      append_path-component d f named plain,
      parent_path-append d f plain ne named,
      abspath_absolute cwd d absolute there,
    )

-- A name without a slash has the empty directory, which `abspath` refuses.
dirname_bare :
    (cwd f : Bytes)
    → contains slash f ≡ false
    → is_empty f ≡ false
    → abspath cwd (dirname f) ≡ raised filesystem_error
unfolding abspath dirname parent_path strip_slashes
dirname_bare cwd f plain ne =
    let kept = strip_slashes-filename f (rw (filename_no_slash f plain) ne) in
    rw (before_filename_none f plain, kept, ne, plain)

module _ (K : Capio) (R : Runpy K.World) (cwd : Bytes) where
  -- A regular file is run as it is.
  isdir-isfile :
      (target : Bytes) (w w' : K.World)
      → isfile K target w ≡ (ok true, w')
      → isdir K target w ≡ (ok false, w')
  unfolding isdir
  isdir-isfile target w w' e =
      ap
        (λ (r : Outcome Bool × K.World).
          (elim r.0 [ ok b ↦ ok (not b) | raised e ↦ raised e | undefined ↦ undefined ], r.1))
        e

  entry_point-isfile :
      (target : Bytes) (w w' : K.World)
      → isfile K target w ≡ (ok true, w')
      → entry_point K R cwd target w ≡ (ok target, w')
  unfolding entry_point
  entry_point-isfile target w w' e =
      let ordinary = isdir-isfile target w w' e in
      rw (ordinary, entry_point) (ap (λ (r : Outcome Bool × K.World). (ok target, r.1)) ordinary)

  failed_ends :
      (w : K.World) (m : Ran × K.World)
      → ◌≡◌ {A = Finish × K.World} (module_finish m.0, m.1) (end_of failed m.0, m.1)
  failed_ends w (completed, w') = refl
  failed_ends w (keyboard_interrupt, w') = refl
  failed_ends w (failed, w') = refl
  failed_ends w (system_exit code, w') = refl

  execute-end_of :
      (script_path target : Bytes) (w : K.World)
      → let r = R.run_path target w in
        let m = R.run_module script_path r.1 in
        execute K R cwd script_path target w ≡ (end_of r.0 m.0, elim r.0 [ failed ↦ m.1 | _ ↦ r.1 ])
  unfolding execute
  execute-end_of script_path target w = ends (R.run_path target w) (R.run_module script_path)
    where
      ends :
          (r : Ran × K.World) (run_module : K.World → Ran × K.World)
          → let m = run_module r.1 in
            ◌≡◌ {A = Finish × K.World}
              (elim r.0 [
                | completed ↦ (returns, r.1)
                | keyboard_interrupt ↦ (exits (status (pos 0)), r.1)
                | system_exit code ↦ (exits code, r.1)
                | failed ↦ (module_finish m.0, m.1)
              ])
              (end_of r.0 m.0, elim r.0 [ failed ↦ m.1 | _ ↦ r.1 ])
      ends (completed, w) m = refl
      ends (keyboard_interrupt, w) m = refl
      ends (system_exit code, w) m = refl
      ends (failed, w) m = failed_ends w (m w)

  -- The launcher, given an absolute directory with a name and a file name without a slash, joined,
  -- where `isfile` answers true, puts the directory in front of `sys.path` unless it is on it, runs
  -- the path, and the module of that name where the path failed. It returns where the run
  -- completed, exits with the `code` of a `SystemExit`, be it a number, `None` or a text, with 0
  -- where an interrupt ended the path, and with 1 where the module failed too; an interrupt of the
  -- module leaves it.
  pub pycapio_launcher-script :
      (d f : Bytes) (sys_path : List Bytes) (w w' : K.World)
      → is_absolute d ≡ true
      → is_empty (filename d) ≡ false
      → contains slash f ≡ false
      → is_empty f ≡ false
      → isfile K (join d f) w ≡ (ok true, w')
      → let r = R.run_path (join d f) w' in
        let m = R.run_module (join d f) r.1 in
        pycapio_launcher K R cwd (join d f) sys_path w
        ≡ (end_of r.0 m.0, add_path d sys_path, elim r.0 [ failed ↦ m.1 | _ ↦ r.1 ])
  unfolding pycapio_launcher
  pycapio_launcher-script d f sys_path w w' absolute named plain ne e = rw (
    entry_point-isfile (join d f) w w' e,
    launched,
    abspath-dirname cwd d f absolute named plain ne,
    execute-end_of (join d f) (join d f) w',
  )

  -- The launcher, given a name without a slash, of a script or a module, for which no entry point
  -- of a package is found, runs nothing: the exception of the patched `os.path.abspath` of the
  -- empty directory name leaves it, and `sys.path` is as before.
  pub pycapio_launcher_bare :
      (f : Bytes) (sys_path : List Bytes) (w w' : K.World)
      → contains slash f ≡ false
      → is_empty f ≡ false
      → entry_point K R cwd f w ≡ (ok f, w')
      → pycapio_launcher K R cwd f sys_path w ≡ (raises filesystem_error, sys_path, w')
  unfolding pycapio_launcher launched
  pycapio_launcher_bare f sys_path w w' plain ne e = rw (e, launched, dirname_bare cwd f plain ne)
