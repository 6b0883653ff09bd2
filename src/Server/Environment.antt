-- ===== src/Server/Environment.antt =====
-- The environment that `libcapio_init` sets up, and the one that it passes to the server
-- (include/_libcapio_impl.hpp).
use py_capio.Base.{
  ◌≡◌, inl, inr, refl, ap, ◌∙◌, Bytes, false, Option, some, none, [], ◌∷◌, ◌++◌, codes, arith,
  if◌then◌else◌, bytes_eq, bytes_eq_refl, eq_of_bytes_eq, Bool-cases,
}
use py_capio.Server.{
  Environ, capio_dir, capio_app_name, capio_workflow_name, capio_log_level, Config, getenv, setenv,
  set_if_unset, init_environ, server_env,
}

-- The value of a variable, or a default.
abbrev pub value_or : Option Bytes → Bytes → Bytes
value_or none v = v
value_or (some u) v = u

getenv-append :
    (k : Bytes) (env more : Environ)
    → getenv k (env ++ more) ≡ elim (getenv k env) [ none ↦ getenv k more | some v ↦ some v ]
unfolding getenv
getenv-append k [] more = refl
getenv-append k ((j, v) ∷ env) more = ground (arith, getenv-append k env more)

pub getenv-setenv :
    (j k v : Bytes) (env : Environ)
    → getenv j (setenv k v env) ≡ (if bytes_eq j k then some v else getenv j env)
unfolding getenv setenv
getenv-setenv j k v [] = refl
getenv-setenv j k v ((i, u) ∷ env) = elim (Bool-cases (bytes_eq k i)) [
  | inl h ↦ rw (h, eq_of_bytes_eq k i h) (ground arith)
  | inr h ↦ rw h (
      ground
        (arith, getenv-setenv j k v env, eq_of_bytes_eq j i, eq_of_bytes_eq j k, bytes_eq_refl k))
]

pub getenv-set_if_unset :
    (j k v : Bytes) (env : Environ)
    → getenv j (set_if_unset k v env)
      ≡ (if bytes_eq j k then some (value_or (getenv k env) v) else getenv j env)
getenv-set_if_unset j k v env = ground (arith, getenv-setenv j k v env, eq_of_bytes_eq j k)

-- What the process's own environment holds once `libcapio_init` has set it up.
pub getenv-init_environ :
    (c : Config) (env : Environ)
    → let env' = init_environ c env in
      (getenv capio_dir env' ≡ some (value_or (getenv capio_dir env) c.dir))
      × (getenv capio_workflow_name env'
          ≡ some (value_or (getenv capio_workflow_name env) c.workflow_name))
      × (getenv capio_app_name env' ≡ some (value_or (getenv capio_app_name env) c.app_name))
unfolding init_environ
getenv-init_environ c env =
    let named = set_if_unset capio_app_name c.app_name env in
    let placed = set_if_unset capio_dir c.dir named in
    (
      getenv-set_if_unset capio_dir capio_workflow_name c.workflow_name placed
          ∙ getenv-set_if_unset capio_dir capio_dir c.dir named
          ∙ ap (λ o. some (value_or o c.dir))
              (getenv-set_if_unset capio_dir capio_app_name c.app_name env),
      getenv-set_if_unset capio_workflow_name capio_workflow_name c.workflow_name placed
          ∙ ap (λ o. some (value_or o c.workflow_name))
              (getenv-set_if_unset capio_workflow_name capio_dir c.dir named
                ∙ getenv-set_if_unset capio_workflow_name capio_app_name c.app_name env),
      getenv-set_if_unset capio_app_name capio_workflow_name c.workflow_name placed
          ∙ getenv-set_if_unset capio_app_name capio_dir c.dir named
          ∙ getenv-set_if_unset capio_app_name capio_app_name c.app_name env,
    )

pub getenv-server_env :
    (k v : Bytes) (c : Config) (env : Environ)
    → getenv k env ≡ some v
    → getenv k (server_env c env) ≡ some v
unfolding server_env
getenv-server_env k v c env h = getenv-append k env _ ∙ rw h

-- A variable that `libcapio_init` does not set.
pub getenv-init_environ_other :
    (k : Bytes) (c : Config) (env : Environ)
    → bytes_eq k capio_app_name ≡ false
    → bytes_eq k capio_dir ≡ false
    → bytes_eq k capio_workflow_name ≡ false
    → getenv k (init_environ c env) ≡ getenv k env
unfolding init_environ
getenv-init_environ_other k c env app dir workflow =
    let named = set_if_unset capio_app_name c.app_name env in
    let placed = set_if_unset capio_dir c.dir named in
    ground (
      arith,
      app,
      dir,
      workflow,
      getenv-set_if_unset k capio_workflow_name c.workflow_name placed,
      getenv-set_if_unset k capio_dir c.dir named,
      getenv-set_if_unset k capio_app_name c.app_name env,
    )

pub getenv-log_level :
    (c : Config) (env : Environ)
    → getenv capio_log_level (server_env c env)
      ≡ some (value_or (getenv capio_log_level env) (codes "-1"))
unfolding server_env getenv
getenv-log_level c env = getenv-append capio_log_level env _ ∙ go (getenv capio_log_level env)
  where
    go :
        (o : Option Bytes)
        → elim o [ none ↦ some (codes "-1") | some v ↦ some v ] ≡ some (value_or o (codes "-1"))
    go none = refl
    go (some v) = refl
