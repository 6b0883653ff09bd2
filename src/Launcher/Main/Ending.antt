-- ===== src/Launcher/Main/Ending.antt =====
-- The server of a launched script (pycapio/__main__.py, `main`).
use py_capio.Base.{
  ◌≡◌, refl, ap, if_elim, is_positive, Bytes, Bool, true, false, List, [], ◌∷◌, if◌then◌else◌,
  raised,
}
use py_capio.Posix.{Capio}
use py_capio.Server.{
  Host, Process, Run, returned, threw, became, exit_handled, killed, libcapio_init, History,
}
use py_capio.Context.Starting.{wrapper_began, Serves, exec-Serves, exit_handlers-Serves}
use py_capio.Server.Reentry.{libcapio_init_kept}
use py_capio.Context.{
  ProxyFunctions, patch_context, Interpreter, Body, Exit, done, replaced, patched, begin, silence,
}
use py_capio.Context.Program.{departing, in_python, exit_handlers}
use py_capio.Launcher.{Runpy, pycapio_launcher}
use py_capio.Launcher.Main.{
  Arguments, settings_of, script_argv, has_run, Launched, ran, launch_script, main,
}

-- What a launch leaves behind, by the end of the server's start: the server that it started is ended.
abbrev pub ended : Run → History → History
ended (returned z) h = if is_positive z then killed z ∷ exit_handled ∷ h else exit_handled ∷ h
ended (threw e) h = h
ended (became image) h = h

-- The script runs only where the start of the server returned.
abbrev pub launched_by : {R : Type 0} → Run → Exit R → Exit R
launched_by (returned z) result = result
launched_by (threw e) result = done (raised e)
launched_by (became image) result = replaced image

either-history :
    (b : Bool) (p q : Process) (h k : History)
    → p.history ≡ h
    → q.history ≡ k
    → (if b then p else q).history ≡ (if b then h else k)
either-history true p q h k e f = e
either-history false p q h k e f = f

module _ (F : Type 0) (proxies : ProxyFunctions F) (abspath : Bytes → Bytes) (H : Host) (K : Capio)
    (R : Runpy K.World) (script : Body F) (cwd default_app_name default_workflow_name : Bytes)
    (a : Arguments) (sys_path : List Bytes) (w : K.World) (s : Interpreter F) where
  -- The start of the server, with `SILENT` set.
  abbrev pub start : Run × Process
  start =
      let o = settings_of default_app_name default_workflow_name a in
      libcapio_init H (record o.config { dir = abspath o.config.dir })
        (silence F proxies abspath H o s).process

  abbrev result : Exit (Launched K.World)
  result = ran (script_argv a) (pycapio_launcher K R cwd a.script_path sys_path w)

  abbrev Ends : Run × Process → Exit (Launched K.World) × Interpreter F → Type 0
  Ends (run, q) (e, s') =
      (e ≡ launched_by run result)
      × (s'.bindings ≡ s.bindings)
      × ((departing (e, s')).history ≡ (if in_python e then ended run q.history else q.history))

  main_began :
      (r : Run × Process)
      → start ≡ r
      → s.py_capio_initialized ≡ false
      → let o = settings_of default_app_name default_workflow_name a in
        main F proxies abspath H K R script cwd default_app_name default_workflow_name a sys_path w
          s
        ≡ patched F proxies abspath H
            (launch_script F proxies abspath H K R script cwd default_app_name default_workflow_name
              a sys_path w)
            (begin F proxies abspath H o (abspath o.config.dir) (silence F proxies abspath H o s) r)
  unfolding main
  main_began r e fresh =
      wrapper_began F proxies abspath H (settings_of default_app_name default_workflow_name a)
        (launch_script F proxies abspath H K R script cwd default_app_name default_workflow_name a
          sys_path w)
        s r fresh e

  main_cases :
      (run : Run) (q : Process)
      → start ≡ (run, q)
      → s.py_capio_initialized ≡ false
      → s.at_exit ≡ []
      → Ends
          (run, q)
          (main F proxies abspath H K R script cwd default_app_name default_workflow_name a sys_path
            w s)
  unfolding departing begin patched silence exit_handlers
  main_cases (returned z) q e fresh nothing =
      let o = settings_of default_app_name default_workflow_name a in
      let s1 : Interpreter F =
        patch_context proxies
          (begin F proxies abspath H o (abspath o.config.dir) (silence F proxies abspath H o s)
            (returned z, q)).1 in
      let s2 =
        (launch_script F proxies abspath H K R script cwd default_app_name default_workflow_name a
          sys_path w s1).1 in
      let (up, id) = libcapio_init_kept H _ _ q z e in
      let begun : Serves F proxies abspath H z q.history s1 =
        (refl, ap (λ l. true ∷ l) nothing, up, id, refl) in
      let v : Serves F proxies abspath H z q.history s2 =
        if_elim (Serves F proxies abspath H z q.history)
          (has_run (pycapio_launcher K R cwd a.script_path sys_path w).0)
          (λ _. exec-Serves F proxies abspath H z q.history script s1 begun) (λ _. begun) in
      rw (main_began (returned z, q) e fresh) (
        refl,
        refl,
        either-history (in_python result) (exit_handlers s2.at_exit s2.process) s2.process _
            q.history (exit_handlers-Serves F proxies abspath H z q.history s2 v) v.4,
      )
  main_cases (threw x) q e fresh nothing =
      rw (main_began (threw x, q) e fresh, nothing) (refl, refl, refl)
  main_cases (became image) q e fresh nothing =
      rw (main_began (became image, q) e fresh) (refl, refl, refl)

  -- From an interpreter in which the module is not initialised and no handler is registered, the
  -- end of `main` goes by that of the server's start with the arguments that were parsed and the
  -- defaults for the others: where the start returned a number, `main` ends as the launcher's
  -- function does, with `sys.argv` set to the script and its arguments; an exception of the start
  -- leaves `main`, and where the process became the server there is no more. The names are left
  -- bound as they were, whatever the script binds and whatever decorated functions it calls. Where
  -- the interpreter then comes to its end, its handler leaves CAPIO once, if the start returned,
  -- and sends SIGTERM to the server's process, if there is one; elsewhere no more is done to the
  -- outside than the start did.
  pub main_server :
      s.py_capio_initialized ≡ false
      → s.at_exit ≡ []
      → let (run, q) = start in
        let (e, s') =
          main F proxies abspath H K R script cwd default_app_name default_workflow_name a sys_path
            w s in
        (e
          ≡ launched_by run
              (ran (script_argv a) (pycapio_launcher K R cwd a.script_path sys_path w)))
        × (s'.bindings ≡ s.bindings)
        × ((departing (e, s')).history ≡ (if in_python e then ended run q.history else q.history))
  main_server fresh nothing = main_cases start.0 start.1 refl fresh nothing
