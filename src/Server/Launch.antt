-- ===== src/Server/Launch.antt =====
-- The arguments, the environment and the executable that `bootstrap_capio_server`
-- (include/_libcapio_impl.hpp) passes to the server.
use py_capio.Base.{
  ◌≡◌, refl, ap, ◌∙◌, true, false, some, [], ◌∷◌, ◌++◌, codes, arith, if◌then◌else◌, is_empty,
}
use py_capio.Server.{
  History, Host, Process, became, Image, capio_dir, capio_app_name, capio_workflow_name,
  capio_log_level, Config, after_fork, launch, bootstrap_capio_server, getenv, init_environ,
  libcapio_init, prepare, attach, argv_of, arg_slots, server_env,
}
use py_capio.Server.Printing.{prepare-environ}
use py_capio.Server.Locking.{bootstrap_cases, booting}
use py_capio.Server.Environment.{
  value_or, getenv-init_environ, getenv-init_environ_other, getenv-server_env, getenv-log_level,
}

module _ (H : Host) where
  launch-image :
      (c : Config) (p : Process) (image : Image)
      → (launch H c p).0 ≡ became image
      → (image.env ≡ server_env c p.environ)
        × (image.argv ≡ argv_of (arg_slots image.path c.cl_config))
        × (H.file_exists p.history image.path ≡ some true)
  unfolding launch after_fork
  launch-image c p image h = ground arith

  -- A start that ends in the server was a launch under the lock.
  bootstrap-image :
      (c : Config) (p : Process) (image : Image)
      → (bootstrap_capio_server H c p).0 ≡ became image
      → (launch H c (booting H c p)).0 ≡ became image
  bootstrap-image c p image =
      bootstrap_cases H c p
        (λ r. r.0 ≡ became image → (launch H c (booting H c p)).0 ≡ became image) (λ h. cc)
        (λ h. cc) (λ h e i. cc) (λ h e i. i)

  init-image :
      (c : Config) (p : Process) (image : Image) (q : Process)
      → libcapio_init H c p ≡ (became image, q)
      → (bootstrap_capio_server H c (prepare H c p)).0 ≡ became image
  unfolding libcapio_init attach
  init-image c p image q h = ground arith

  module _ (c : Config) (p q : Process) (image : Image)
      (started : libcapio_init H c p ≡ (became image, q)) where
    prepared : Process
    prepared = prepare H c p

    image_facts :
        (image.env ≡ server_env c (init_environ c p.environ))
        × (image.argv ≡ argv_of (arg_slots image.path c.cl_config))
        × (H.file_exists (booting H c prepared).history image.path ≡ some true)
    unfolding prepared
    image_facts =
        let (env, argv, there) =
          launch-image c (booting H c prepared) image
            (bootstrap-image c prepared image (init-image c p image q started)) in
        (env ∙ ap (server_env c) (prepare-environ H c p), argv, there)

    -- In a process that becomes the server, CAPIO_DIR and CAPIO_WORKFLOW_NAME have the values of
    -- the client's environment where it had them, and the arguments of `libcapio_init` otherwise.
    pub server-getenv :
        (getenv capio_dir image.env ≡ some (value_or (getenv capio_dir p.environ) c.dir))
        × (getenv capio_workflow_name image.env
            ≡ some (value_or (getenv capio_workflow_name p.environ) c.workflow_name))
    server-getenv =
        let (dir, workflow, _) = getenv-init_environ c p.environ in
        (
          ap (getenv capio_dir) image_facts.0 ∙ getenv-server_env capio_dir _ c _ dir,
          ap (getenv capio_workflow_name) image_facts.0
              ∙ getenv-server_env capio_workflow_name _ c _ workflow,
        )

    bootstrap-fresh :
        H.file_exists prepared.history (codes "/dev/shm/" ++ c.workflow_name) ≡ some false
    unfolding prepared
    bootstrap-fresh =
        bootstrap_cases H c prepared
          (λ r.
            r.0 ≡ became image
            → H.file_exists prepared.history (codes "/dev/shm/" ++ c.workflow_name) ≡ some false)
          (λ h. cc) (λ h. cc) (λ h e i. cc) (λ h e i. h) (init-image c p image q started)

    -- A process that becomes the server runs a file that was seen to exist, for a workflow that had
    -- no shared memory by the name of the argument. With a configuration it is passed that and the
    -- backend; with none the arguments end at "--no-config", and the backend is not passed. In its
    -- environment the directory, the workflow and the application have the values of the client's
    -- environment where that had them, and the arguments of `libcapio_init` otherwise; the log
    -- level is -1 only where the client's environment had none.
    pub server-image :
        (image.argv ≡ (
          if is_empty c.cl_config
          then image.path ∷ codes "--no-config" ∷ []
          else image.path ∷ codes "--config" ∷ c.cl_config ∷ codes "--backend" ∷ codes "none" ∷ []))
        × ((h : History) × (H.file_exists h image.path ≡ some true))
        × ((h : History) × (H.file_exists h (codes "/dev/shm/" ++ c.workflow_name) ≡ some false))
        × (getenv capio_dir image.env ≡ some (value_or (getenv capio_dir p.environ) c.dir))
        × (getenv capio_workflow_name image.env
            ≡ some (value_or (getenv capio_workflow_name p.environ) c.workflow_name))
        × (getenv capio_app_name image.env
            ≡ some (value_or (getenv capio_app_name p.environ) c.app_name))
        × (getenv capio_log_level image.env
            ≡ some (value_or (getenv capio_log_level p.environ) (codes "-1")))
    unfolding argv_of arg_slots
    server-image =
        let (dir, workflow, app) = getenv-init_environ c p.environ in
        let (env, argv, there) = image_facts in
        (
          argv ∙ ground arith,
          ((booting H c prepared).history, there),
          (prepared.history, bootstrap-fresh),
          ap (getenv capio_dir) env ∙ getenv-server_env capio_dir _ c _ dir,
          ap (getenv capio_workflow_name) env
              ∙ getenv-server_env capio_workflow_name _ c _ workflow,
          ap (getenv capio_app_name) env ∙ getenv-server_env capio_app_name _ c _ app,
          ap (getenv capio_log_level) env
              ∙ getenv-log_level c (init_environ c p.environ)
              ∙ ap (λ o. some (value_or o (codes "-1")))
                  (getenv-init_environ_other capio_log_level c p.environ refl refl refl),
        )

    -- A process that becomes the server runs a file that was seen to exist. With a configuration it
    -- is passed that and the backend; with none the arguments end at "--no-config", and the backend
    -- is not passed.
    pub server-argv :
        (image.argv ≡ (
          if is_empty c.cl_config
          then image.path ∷ codes "--no-config" ∷ []
          else image.path ∷ codes "--config" ∷ c.cl_config ∷ codes "--backend" ∷ codes "none" ∷ []))
        × (h : History) × (H.file_exists h image.path ≡ some true)
    unfolding argv_of arg_slots
    server-argv = (image_facts.1 ∙ ground arith, (booting H c prepared).history, image_facts.2)
