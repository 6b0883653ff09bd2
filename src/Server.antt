-- ===== src/Server.antt =====
-- include/_libcapio_impl.hpp, lines 41-245: the process's CAPIO state, the startup lock, the start
-- of the server, `libcapio_init` and `libcapio_teardown`. What the process does to the outside is
-- the history of its calls, newest first; what the outside answers is the parameter `Host`, which may
-- answer by all that has happened. The log is left out.
mod State
pub mod Printing
pub mod Calls
pub mod Lifecycle
pub mod Tagging
pub mod Clients
pub mod Aside
pub mod Reentry
pub mod Environment
pub mod Launch
pub mod Search
pub mod Attaching
pub mod Race
pub mod Locking
pub mod Tests
unfoldable pub use State.*
use py_capio.Base.{
  filesystem_error, logic_error, ℕ, ◌≡◌, ℤ, pos, negsuc, eq_ℤ, is_positive, Bytes, Bool, true,
  false, ◌&&◌, not, Option, none, some, List, [], ◌∷◌, ◌++◌, bytes_eq, codes, is_empty, to_string,
  ◌==◌, if◌then◌else◌, Message, Exception, py_capio_exception, no_server_executable, execve_failure,
}
use py_capio.FsPath.{append_path}

-- Puts a byte before the first item.
abbrev pub prepend : ℕ → List Bytes → List Bytes
prepend c [] = (c ∷ []) ∷ []
prepend c (l ∷ ls) = (c ∷ l) ∷ ls

-- The items that `std::getline(ss, item, ':')` gives one by one.
pub path_items : Bytes → List Bytes
path_items [] = []
path_items (c ∷ s) = if c == b':' then [] ∷ path_items s else prepend c (path_items s)

-- `char *args[6]`
pub arg_slots : Bytes → Bytes → List (Option Bytes)
arg_slots exec cl_config =
    some exec
    ∷ some (if is_empty cl_config then codes "--no-config" else codes "--config")
    ∷ (if is_empty cl_config then none else some cl_config)
    ∷ some (codes "--backend")
    ∷ some (codes "none")
    ∷ none
    ∷ []

-- What the new program receives of them: `argv` ends at the first null pointer.
pub argv_of : List (Option Bytes) → List Bytes
argv_of [] = []
argv_of (none ∷ slots) = []
argv_of (some a ∷ slots) = a ∷ argv_of slots

pub server_env : Config → Environ → Environ
server_env c environ =
    environ
    ++ ((capio_dir, c.dir)
        ∷ (capio_log_level, codes "-1")
        ∷ (capio_workflow_name, c.workflow_name)
        ∷ [])

abbrev pub set_if_unset : Bytes → Bytes → Environ → Environ
set_if_unset k v env = elim (getenv k env) [ none ↦ setenv k v env | some _ ↦ env ]

pub init_environ : Config → Environ → Environ
init_environ c env =
    set_if_unset capio_workflow_name c.workflow_name
      (set_if_unset capio_dir c.dir (set_if_unset capio_app_name c.app_name env))

-- `~StartupSemaphore`; a process that has become another program runs no destructor.
pub release : StartupSemaphore → Run → Process → Process
release boot_lock (became image) p = p
release boot_lock run p =
    if is_acquired boot_lock
    then log (shm_unlinked boot_lock.lock_to_check) (log (fd_closed boot_lock.fp) p)
    else p

-- The executable, or the exception of the search.
pub data Resolved : Type 0 where
  found : Bytes → Resolved
  fails : Exception → Resolved

module _ (H : Host) where
  -- `StartupSemaphore::StartupSemaphore`
  abbrev pub new_semaphore : Bytes → Process → StartupSemaphore × Process
  new_semaphore workflow_name p =
      let fp = H.shm_open p.history (lock_name workflow_name) in
      (
        record { fp = fp; lock_to_check = lock_name workflow_name },
        log (shm_opened (lock_name workflow_name) fp) p,
      )

  -- The search through PATH; where it fails the name stays as it is, and where a test raises the
  -- search does (`none`).
  pub search_path : History → Bytes → List Bytes → Option Bytes
  search_path h name [] = some name
  search_path h name (item ∷ items) =
      let check = append_path item name in
      let rest = search_path h name items in
      elim (H.file_exists h check) [ none ↦ none | some there ↦ if there then some check else rest ]

  -- Where PATH is unset, a stream is made from the null pointer.
  pub resolve : Bytes → Process → Resolved
  resolve exec_path p =
      if bytes_eq exec_path capio_server
      then elim (getenv (codes "PATH") p.environ) [
        | none ↦ fails logic_error
        | some path ↦ elim (search_path p.history exec_path (path_items path)) [
          | none ↦ fails filesystem_error
          | some resolved ↦ found resolved
        ]
      ]
      else found exec_path

  -- Behind the fork: the child becomes the server, the parent waits for it.
  pub after_fork : Config → Bytes → ℤ → Process → Run × Process
  after_fork c resolved pid p =
      let image : Image = record {
        path = resolved;
        argv = argv_of (arg_slots resolved c.cl_config);
        env = server_env c p.environ;
      } in
      if eq_ℤ pid (pos 0)
      then if H.execve p.history image
        then (became image, p)
        else (let m = execve_failure p.libcapio_preamble c.exec_path (H.strerror p.history) in
            (threw (py_capio_exception m), report m p))
      else if is_positive pid
      then (
        returned pid,
        log (slept c.await_seconds)
            (say (codes " Started CAPIO server with  PID: " ++ to_string pid) p),
      )
      else (
        returned pid,
        say (codes "Failed to FORK server thread. Error: " ++ H.strerror p.history) p,
      )

  pub launch : Config → Process → Run × Process
  launch c p = elim (resolve c.exec_path p) [
    | fails e ↦ (threw e, p)
    | found resolved ↦ elim (H.file_exists p.history resolved) [
      | none ↦ (threw filesystem_error, p)
      | some there ↦
          if there
          then (let pid = H.fork p.history in after_fork c resolved pid (log (forked pid) p))
          else (threw (py_capio_exception no_server_executable), report no_server_executable p)
    ]
  ]

  pub bootstrap_capio_server : Config → Process → Run × Process
  bootstrap_capio_server c p =
      elim (H.file_exists p.history (codes "/dev/shm/" ++ c.workflow_name)) [
        | none ↦ (threw filesystem_error, p)
        | some server_is_started ↦
            if server_is_started
            then (returned (negsuc 0), say already_started p)
            else let (boot_lock, p') = new_semaphore c.workflow_name p in
              let (run, p'') =
                if is_acquired boot_lock
                then launch c (say booting_up p')
                else (returned (negsuc 0), log (slept 3) p') in
              (run, release boot_lock run p'')
      ]

  -- What `libcapio_init` does first: the preamble, where there is none yet, and the environment.
  pub prepare : Config → Process → Process
  prepare c p =
      let q = if is_empty p.libcapio_preamble then set_preamble H c.app_name p else p in
      record q { environ = init_environ c q.environ }

  -- Behind the bootstrap: an exception passes through; otherwise the client side is initialised
  -- (`init_client`, `init_filesystem`, `initialize_new_thread`).
  pub attach : Run → Process → Run × Process
  attach (returned thread_id) p =
      let id = if is_positive thread_id then thread_id else p.capio_server_thread_id in
      let q = greet H (log client_initialized (record p { capio_server_thread_id = id })) in
      (returned id, record q { libcapio_initialized = true })
  attach run p = (run, p)

  pub libcapio_init : Config → Process → Run × Process
  libcapio_init c p =
      let p' = prepare c p in
      if p'.libcapio_initialized
      then (returned p'.capio_server_thread_id, p')
      else (let (run, p'') = bootstrap_capio_server c p' in attach run p'')

pub libcapio_teardown : Bool → Process → Process
libcapio_teardown teardown_server p =
    if p.libcapio_initialized
    then (let p' = log exit_handled p in
        if teardown_server && is_positive p.capio_server_thread_id
        then record p' {
          history = killed p.capio_server_thread_id ∷ p'.history;
          capio_server_thread_id = negsuc 0;
          libcapio_initialized = false;
        }
        else record p' { libcapio_initialized = false })
    else p
