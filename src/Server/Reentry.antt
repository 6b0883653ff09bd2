-- ===== src/Server/Reentry.antt =====
-- `libcapio_init` (include/_libcapio_impl.hpp) behind an earlier one, and behind a teardown that leaves
-- the server.
use py_capio.Base.{
  ◌≡◌, refl, sym, subst, if_elim, ap, ◌∙◌, ℤ, Bytes, true, false, is_empty, codes, ◌++◌, some, ◌∷◌,
  arith, is_positive, if◌then◌else◌,
}
use py_capio.Server.{
  greet, say, already_started, log, client_initialized, exit_handled, killed, Host, Process, Run,
  returned, threw, became, Environ, capio_dir, capio_app_name, capio_workflow_name, Config,
  bootstrap_capio_server, getenv, set_if_unset, init_environ, libcapio_init, prepare,
  libcapio_teardown, attach,
}
use py_capio.Server.Locking.{bootstrap-up}
use py_capio.Server.Printing.{
  greet_keeps, prepare-environ, prepare_again, prepare-is_empty, bootstrap_keeps,
}
use py_capio.Server.Environment.{getenv-init_environ}

set_if_unset_kept :
    (k v u : Bytes) (env : Environ) → getenv k env ≡ some u → set_if_unset k v env ≡ env
set_if_unset_kept k v u env h = rw (h, set_if_unset)

init_environ_twice :
    (c c' : Config) (env : Environ) → init_environ c' (init_environ c env) ≡ init_environ c env
unfolding init_environ
init_environ_twice c c' env =
    let (dir, workflow, app) = getenv-init_environ c env in
    ap (λ e. set_if_unset capio_workflow_name c'.workflow_name (set_if_unset capio_dir c'.dir e))
      (set_if_unset_kept capio_app_name c'.app_name _ (init_environ c env) app)
    ∙ ap (set_if_unset capio_workflow_name c'.workflow_name)
        (set_if_unset_kept capio_dir c'.dir _ (init_environ c env) dir)
    ∙ set_if_unset_kept capio_workflow_name c'.workflow_name _ (init_environ c env) workflow

module _ (H : Host) where
  -- The environment and the preamble.
  abbrev Settled : Environ → Process → Type 0
  Settled env q = (q.environ ≡ env) × (is_empty q.libcapio_preamble ≡ false)

  -- What a `libcapio_init` that returns leaves behind.
  abbrev Done : Environ → Run × Process → Type 0
  Done env (run, q) =
      (z : ℤ)
      → run ≡ returned z
      → (q.libcapio_initialized ≡ true) × (q.capio_server_thread_id ≡ z) × Settled env q

  attach-Done :
      (env : Environ) (run : Run) (q : Process) → Settled env q → Done env (attach H run q)
  unfolding attach
  attach-Done env (returned y) q v z e =
      let id = if is_positive y then y else q.capio_server_thread_id in
      let (same, settled) =
        greet_keeps (λ g. (g.capio_server_thread_id ≡ id) × Settled env g) (λ x g w. w) (λ g w. w) H
          (log client_initialized (record q { capio_server_thread_id = id })) (refl, v) in
      (refl, same ∙ ground arith, settled)
  attach-Done env (threw x) q v z e = cc
  attach-Done env (became image) q v z e = cc

  init-Done : (c : Config) (p : Process) → Done (init_environ c p.environ) (libcapio_init H c p)
  unfolding libcapio_init
  init-Done c p =
      let p' = prepare H c p in
      let env = init_environ c p.environ in
      let v : Settled env p' = (prepare-environ H c p, prepare-is_empty H c p) in
      if_elim (Done env) p'.libcapio_initialized (λ y z e. (y, ground arith, v))
        (λ _.
          attach-Done env (bootstrap_capio_server H c p').0 (bootstrap_capio_server H c p').1
            (bootstrap_keeps (Settled env) (λ e q h w. w) (λ x q w. w) H c p' v))

  init_again :
      (c : Config) (q : Process)
      → q.libcapio_initialized ≡ true
      → is_empty q.libcapio_preamble ≡ false
      → libcapio_init H c q
        ≡ (returned q.capio_server_thread_id, record q { environ = init_environ c q.environ })
  unfolding libcapio_init
  init_again c q h named = rw (libcapio_init, prepare_again H c q named, h)

  -- A `libcapio_init` behind one that returned, with whatever arguments, returns the same number
  -- and changes nothing, the environment included.
  pub libcapio_init_twice :
      (c c' : Config) (p q : Process) (z : ℤ)
      → libcapio_init H c p ≡ (returned z, q)
      → libcapio_init H c' q ≡ (returned z, q)
  libcapio_init_twice c c' p q z h =
      let (up, id, (env, named)) =
        subst (Done (init_environ c p.environ)) h (init-Done c p) z refl in
      init_again c' q up named
      ∙ ap (λ e. (returned q.capio_server_thread_id, record q { environ = e }))
          (ap (init_environ c') env ∙ init_environ_twice c c' p.environ ∙ sym env)
      ∙ ap (λ i. (returned i, q)) id

  -- The process has attached to the server that is up.
  abbrev pub anew : Process → Process
  anew q = record (greet H (log client_initialized (say already_started q))) {
    libcapio_initialized = true;
  }

  abbrev detached : Process → Process
  detached q = record q { history = exit_handled ∷ q.history; libcapio_initialized = false }

  -- A start where the server is up only attaches.
  libcapio_init-up :
      (c : Config) (q : Process)
      → q.libcapio_initialized ≡ false
      → is_empty q.libcapio_preamble ≡ false
      → init_environ c q.environ ≡ q.environ
      → H.file_exists q.history (codes "/dev/shm/" ++ c.workflow_name) ≡ some true
      → libcapio_init H c q ≡ (returned q.capio_server_thread_id, anew q)
  unfolding libcapio_init attach greet
  libcapio_init-up c q off named same there =
      let e : prepare H c q ≡ q =
        prepare_again H c q named ∙ ap (λ env. record q { environ = env }) same in
      subst
        (λ p.
          (if p.libcapio_initialized
            then (returned p.capio_server_thread_id, p)
            else attach H (bootstrap_capio_server H c p).0 (bootstrap_capio_server H c p).1)
          ≡ (returned q.capio_server_thread_id, anew q))
        (sym e)
        (ap
            (λ b.
              if b
              then (returned q.capio_server_thread_id, q)
              else attach H (bootstrap_capio_server H c q).0 (bootstrap_capio_server H c q).1)
            off
          ∙ ap (λ (r : Run × Process). attach H r.0 r.1) (bootstrap-up H c q there))

  -- A process whose `libcapio_init` returned, and that tears down without the server, gets the same
  -- number from a `libcapio_init` while the shared memory of the workflow is there: it forks no
  -- server and waits for none, it only attaches anew.
  pub libcapio_init_after_teardown :
      (c c' : Config) (p q : Process) (z : ℤ)
      → libcapio_init H c p ≡ (returned z, q)
      → H.file_exists (exit_handled ∷ q.history) (codes "/dev/shm/" ++ c'.workflow_name) ≡ some true
      → libcapio_init H c' (libcapio_teardown false q) ≡ (
        returned z,
        record (greet H
            (log client_initialized (say already_started (libcapio_teardown false q)))) {
              libcapio_initialized = true;
            },
      )
  unfolding libcapio_teardown
  libcapio_init_after_teardown c c' p q z h there =
      let (up, id, (env, named)) =
        subst (Done (init_environ c p.environ)) h (init-Done c p) z refl in
      let same : init_environ c' q.environ ≡ q.environ =
        ap (init_environ c') env ∙ init_environ_twice c c' p.environ ∙ sym env in
      let e : libcapio_teardown false q ≡ detached q = ground arith in
      subst (λ t. libcapio_init H c' t ≡ (returned z, anew t)) (sym e)
        (libcapio_init-up c' (detached q) refl named same there
          ∙ ap (λ i. (returned i, anew (detached q))) id)

  -- A teardown of a client and of its server ends the process of the number that is kept, if it is
  -- one.
  pub teardown_ends :
      (q : Process)
      → q.libcapio_initialized ≡ true
      → let z = q.capio_server_thread_id in
        (libcapio_teardown true q).history
        ≡ (if is_positive z then killed z ∷ exit_handled ∷ q.history else exit_handled ∷ q.history)
  unfolding libcapio_teardown
  teardown_ends q up = ground arith

  -- A `libcapio_init` that returned has made the process a client and keeps the number.
  pub libcapio_init_kept :
      (c : Config) (p q : Process) (z : ℤ)
      → libcapio_init H c p ≡ (returned z, q)
      → (q.libcapio_initialized ≡ true) × (q.capio_server_thread_id ≡ z)
  libcapio_init_kept c p q z h =
      let (up, id, (env, named)) =
        subst (Done (init_environ c p.environ)) h (init-Done c p) z refl in
      (up, id)
