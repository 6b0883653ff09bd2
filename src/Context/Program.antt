-- ===== src/Context/Program.antt =====
-- A program that calls functions decorated with `CapioContext` (pycapio/__init__.py), up to its end,
-- where the interpreter calls what was registered with `atexit`, the last one first.
use py_capio.Base.{
  inl, suc, ◌≤◌, ◌≡◌, refl, sym, ap, subst, ◌∙◌, if_elim, Bytes, Bool, true, false, List, [], ◌∷◌,
  some, length, arith, if◌then◌else◌, ok, raised, undefined, negsuc,
}
use py_capio.Server.{libcapio_init, libcapio_teardown, Process, Host, Run, returned, threw, became}
use py_capio.Server.Attaching.{
  attached, departed, Attaches, libcapio_init-Attaches, libcapio_teardown-departs,
}
use py_capio.Server.Lifecycle.{KillsOwn, Inv, libcapio_init-Inv, libcapio_teardown-Inv}
use py_capio.PyModule.Functions.{pycapio_teardown}
use py_capio.Context.{
  ProxyFunctions, begin, Interpreter, Settings, Exit, done, replaced, Body, initialise, silence,
  exec,
}
use py_capio.Context.Restoring.{exec-keeps, exec-registered}

unfoldable pub exit_handlers : List Bool → Process → Process
exit_handlers [] p = p
exit_handlers (teardown_server ∷ handlers) p =
    exit_handlers handlers (pycapio_teardown (some teardown_server) p)

-- Whether the interpreter comes to its end, with or without an exception.
abbrev pub in_python : {R : Type 0} → Exit R → Bool
in_python (done (ok u)) = true
in_python (done (raised e)) = true
in_python (done undefined) = false
in_python (replaced image) = false

unfoldable pub departing : {F R : Type 0} → Exit R × Interpreter F → Process
departing (e, s) = if in_python e then exit_handlers s.at_exit s.process else s.process

exit_handlers-Inv :
    (H : Host) (handlers : List Bool) (p : Process) → Inv p → Inv (exit_handlers handlers p)
unfolding exit_handlers pycapio_teardown
exit_handlers-Inv H [] p v = v
exit_handlers-Inv H (b ∷ handlers) p v =
    exit_handlers-Inv H handlers (libcapio_teardown b p) (libcapio_teardown-Inv H b p v)

-- A teardown for each attachment leaves no client behind.
exit_handlers-departed :
    (initialized : Bool) (handlers : List Bool) (p : Process)
    → length handlers ≡ (if initialized then 1 else 0)
    → attached p.history ≡ (if initialized then 1 else 0)
    → departed p.history ≡ 0
    → p.libcapio_initialized ≡ initialized
    → let q = exit_handlers handlers p in
      (departed q.history ≡ attached q.history)
      × (attached q.history ≤ 1)
      × (q.libcapio_initialized ≡ false)
unfolding exit_handlers pycapio_teardown
exit_handlers-departed false [] p l a d same = (d ∙ sym a, omega arith, same)
exit_handlers-departed false (b ∷ bs) p l a d same = absurd (omega arith)
exit_handlers-departed true [] p l a d same = absurd (omega arith)
exit_handlers-departed true (b ∷ []) p l a d same =
    let (a', d', down) = libcapio_teardown-departs b p same in
    (d' ∙ ap suc d ∙ sym (a' ∙ a), omega arith, down)
exit_handlers-departed true (b ∷ c ∷ bs) p l a d same = absurd (omega arith)

module _ (F : Type 0) (proxies : ProxyFunctions F) (abspath : Bytes → Bytes) (H : Host) where
  -- The process is a client once it is initialised, and not before; it has not left.
  abbrev IsClient : Interpreter F → Type 0
  IsClient s =
      (attached s.process.history ≡ (if s.py_capio_initialized then 1 else 0))
      × (departed s.process.history ≡ 0)
      × (s.process.libcapio_initialized ≡ s.py_capio_initialized)

  begin-IsClient :
      (o : Settings) (dir : Bytes) (s : Interpreter F) (r : Run × Process)
      → attached s.process.history ≡ 0
      → departed s.process.history ≡ 0
      → s.py_capio_initialized ≡ false
      → Attaches H s.process r
      → IsClient (begin F proxies abspath H o dir s r).1
  unfolding begin
  begin-IsClient o dir s (returned z, p) idle here fresh h = (h.0 ∙ ap suc idle, h.1 ∙ here, h.2)
  begin-IsClient o dir s (threw e, p) idle here fresh h = ground arith
  begin-IsClient o dir s (became image, p) idle here fresh h = ground arith

  begin-process :
      (o : Settings) (dir : Bytes) (s : Interpreter F) (r : Run × Process)
      → (begin F proxies abspath H o dir s r).1.process ≡ r.1
  unfolding begin
  begin-process o dir s (returned z, p) = refl
  begin-process o dir s (threw e, p) = refl
  begin-process o dir s (became image, p) = refl

  initialise-IsClient :
      (o : Settings) (s : Interpreter F)
      → IsClient s
      → IsClient (initialise F proxies abspath H o (silence F proxies abspath H o s)).1
  unfolding initialise silence
  initialise-IsClient o s (counted, here, same) =
      let s' = silence F proxies abspath H o s in
      let dir = abspath o.config.dir in
      let c = record o.config { dir = dir } in
      if_elim (λ (r : Run × Interpreter F). IsClient r.1) s.py_capio_initialized
        (λ _. (counted, here, same))
        (λ fresh.
          begin-IsClient o dir s' (libcapio_init H c s'.process) (ground arith) here fresh
            (libcapio_init-Attaches H c s'.process (same ∙ fresh)))

  initialise-Inv :
      (o : Settings) (s : Interpreter F)
      → Inv s.process
      → Inv (initialise F proxies abspath H o (silence F proxies abspath H o s)).1.process
  unfolding initialise silence
  initialise-Inv o s v =
      let s' = silence F proxies abspath H o s in
      let dir = abspath o.config.dir in
      let c = record o.config { dir = dir } in
      let v' : Inv s'.process = record { own = v.own; known = v.known } in
      if_elim (λ (r : Run × Interpreter F). Inv r.1.process) s.py_capio_initialized (λ _. v')
        (λ fresh.
          subst Inv (sym (begin-process o dir s' (libcapio_init H c s'.process)))
            (libcapio_init-Inv H c s'.process v'))

  at_end :
      (ended : Bool) (s : Interpreter F)
      → IsClient s
      → length s.at_exit ≡ (if s.py_capio_initialized then 1 else 0)
      → Inv s.process
      → let p = if ended then exit_handlers s.at_exit s.process else s.process in
        KillsOwn p.history
        × (attached p.history ≤ 1)
        × (departed p.history ≡ (if ended then attached p.history else 0))
        × (p.libcapio_initialized ≡ (if ended then false else s.py_capio_initialized))
  at_end true s (counted, here, same) registered v =
      let (left, once, down) =
        exit_handlers-departed s.py_capio_initialized s.at_exit s.process registered counted here
          same in
      ((exit_handlers-Inv H s.at_exit s.process v).own, once, left, down)
  at_end false s (counted, here, same) registered v = (v.own, ground (arith, counted), here, same)

  -- From an interpreter in which nothing was initialised, registered or done, a program with
  -- whatever calls of decorated functions attaches the process to CAPIO at most once; where it
  -- comes to its end in Python, with or without an exception, its exit handlers leave CAPIO as
  -- often as it attached and the process is no client; elsewhere none has run. SIGTERM goes to no
  -- process but a child that was forked before.
  pub departing-exec :
      (body : Body F) (s : Interpreter F)
      → s.process.history ≡ []
      → s.process.capio_server_thread_id ≡ negsuc 0
      → s.process.libcapio_initialized ≡ false
      → s.at_exit ≡ []
      → s.py_capio_initialized ≡ false
      → let (e, s') = exec F proxies abspath H body s in
        let p = departing (e, s') in
        KillsOwn p.history
        × (attached p.history ≤ 1)
        × (departed p.history ≡ (if in_python e then attached p.history else 0))
        × (p.libcapio_initialized ≡ (if in_python e then false else s'.py_capio_initialized))
  unfolding departing
  departing-exec body s none_yet no_server idle nothing fresh =
      let r = exec F proxies abspath H body s in
      let client : IsClient s =
        (ground (arith, none_yet), ground (arith, none_yet), idle ∙ sym fresh) in
      let unknown : Inv s.process = record {
        own = rw none_yet tt;
        known = inl (rw no_server refl);
      } in
      at_end (in_python r.0) r.1
        (exec-keeps F proxies abspath H IsClient (λ b s h. h) initialise-IsClient body s client)
        (exec-registered F proxies abspath H body s (rw nothing (ground arith)))
        (exec-keeps F proxies abspath H (λ t. Inv t.process) (λ b s h. h) initialise-Inv body s
          unknown)
