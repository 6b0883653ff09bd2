-- ===== src/Server/State.antt =====
-- The state of a process in include/_libcapio_impl.hpp: its globals, its environment, what it has done
-- to the outside, and the startup lock; and what the outside answers.
use py_capio.Base.{
  Message, ℕ, ℤ, negsuc, eq_ℤ, Bytes, Bool, not, Option, none, some, List, [], ◌∷◌, ◌++◌, bytes_eq,
  codes, if◌then◌else◌, to_string, Exception, false,
}

abbrev pub Environ : Type 0
Environ = List (Bytes × Bytes)

-- `getenv`: the first entry of the name counts.
unfoldable pub getenv : Bytes → Environ → Option Bytes
getenv k [] = none
getenv k ((j, v) ∷ env) = if bytes_eq k j then some v else getenv k env

-- `setenv(k, v, 1)`
unfoldable pub setenv : Bytes → Bytes → Environ → Environ
setenv k v [] = (k, v) ∷ []
setenv k v ((j, u) ∷ env) = if bytes_eq k j then (j, v) ∷ env else (j, u) ∷ setenv k v env

abbrev pub capio_dir : Bytes
capio_dir = codes "CAPIO_DIR"

abbrev pub capio_app_name : Bytes
capio_app_name = codes "CAPIO_APP_NAME"

abbrev pub capio_workflow_name : Bytes
capio_workflow_name = codes "CAPIO_WORKFLOW_NAME"

abbrev pub capio_log_level : Bytes
capio_log_level = codes "CAPIO_LOG_LEVEL"

abbrev pub capio_server : Bytes
capio_server = codes "capio_server"

-- What `execve` starts.
pub record Image : Type 0 where
  pub path : Bytes
  pub argv : List Bytes
  pub env : Environ

-- The calls that reach outside the process, with the answers that matter; `printed` is a line on
-- the terminal, `reported` the text of an exception there (PyCapioException), where it is made.
pub data Event : Type 0 where
  shm_opened : Bytes → ℤ → Event
  fd_closed : ℤ → Event
  shm_unlinked : Bytes → Event
  forked : ℤ → Event
  slept : ℕ → Event
  client_initialized exit_handled : Event
  killed : ℤ → Event
  printed : Bytes → Event
  reported : Message → Event

abbrev pub History : Type 0
History = List Event

-- `std::filesystem::exists` answers, or raises (`none`), as for a path behind a directory that is not
-- searchable.
pub record Host : Type 0 where
  pub shm_open : History → Bytes → ℤ
  pub file_exists : History → Bytes → Option Bool
  pub fork : History → ℤ
  pub gethostname : History → Option Bytes
  pub getpid : History → ℤ
  pub gettid : History → ℤ
  pub strerror : History → Bytes
  pub execve : History → Image → Bool

-- `libcapio_preamble` is that of the thread that calls.
pub record Process : Type 0 where
  pub libcapio_initialized : Bool
  pub capio_server_thread_id : ℤ
  pub libcapio_preamble : Bytes
  pub environ : Environ
  pub history : History

abbrev pub log : Event → Process → Process
log e p = record p { history = e ∷ p.history }

-- The exception's text goes to the terminal where it is made.
abbrev pub report : Message → Process → Process
report m p = log (reported m) p

-- `std::cout << libcapio_preamble << text << std::endl`
abbrev pub say : Bytes → Process → Process
say text p = log (printed (p.libcapio_preamble ++ text)) p

-- How a call ends: it returns, throws, or becomes another program (in the child of a fork).
pub data Run : Type 0 where
  returned : ℤ → Run
  threw : Exception → Run
  became : Image → Run

-- The arguments of the server's start, as `libcapio_init` takes them.
pub record Config : Type 0 where
  pub dir : Bytes
  pub app_name : Bytes
  pub workflow_name : Bytes
  pub exec_path : Bytes
  pub cl_config : Bytes
  pub await_seconds : ℕ

abbrev pub lock_name : Bytes → Bytes
lock_name workflow_name = workflow_name ++ codes ".lock"

-- The lock is the shared memory of this name, if the process could make it.
pub record StartupSemaphore : Type 0 where
  pub fp : ℤ
  pub lock_to_check : Bytes

-- `StartupSemaphore::operator bool`
abbrev pub is_acquired : StartupSemaphore → Bool
is_acquired boot_lock = not (eq_ℤ boot_lock.fp (negsuc 0))

abbrev pub already_started : Bytes
already_started = codes " CAPIO server is already started"

abbrev pub booting_up : Bytes
booting_up = codes " Booting up CAPIO server instance"

-- The name of the host as `libcapio_init` finds it in the array that `gethostname` fills, which is
-- zeroed before; where the call fails there is a warning.
abbrev pub host_name : Option Bytes → Bytes
host_name none = []
host_name (some name) = name

abbrev pub preamble_text : Bytes → Bytes → ℤ → Bytes
preamble_text host app_name pid =
    codes "[[LIBCAPIO::"
    ++ (host ++ (codes "::" ++ (app_name ++ (codes "::" ++ (to_string pid ++ codes "]] ")))))

abbrev pub is_talkative : Environ → Bool
is_talkative env = elim (getenv (codes "SILENT") env) [
  | none ↦ false
  | some silent ↦ bytes_eq silent (codes "OFF")
]

-- A variable as it is printed; `libcapio_init` has set those that it prints.
abbrev pub shown : Option Bytes → Bytes
shown none = []
shown (some v) = v

module _ (H : Host) where
  abbrev pub warn_host : Option Bytes → Process → Process
  warn_host none p = log (printed (codes "WARN: gethostname failed: " ++ H.strerror p.history)) p
  warn_host (some name) p = p

  -- The preamble of the lines that follow: the host, the application and the process.
  unfoldable pub set_preamble : Bytes → Process → Process
  set_preamble app_name p =
      let q = warn_host (H.gethostname p.history) p in
      record q {
        libcapio_preamble =
            preamble_text (host_name (H.gethostname p.history)) app_name (H.getpid q.history);
      }

  -- What `libcapio_init` prints once the client side is there, if SILENT is OFF.
  unfoldable pub greet : Process → Process
  greet p =
      if is_talkative p.environ
      then (let q =
            say (codes " CAPIO_WORKFLOW_NAME: " ++ shown (getenv capio_workflow_name p.environ)) (
              say (codes " CAPIO_APP_NAME: " ++ shown (getenv capio_app_name p.environ))
                (say (codes " CAPIO_DIR: " ++ shown (getenv capio_dir p.environ)) p)) in
          log (printed []) (
            say
              (codes " PID - TID: "
                ++ (to_string (H.getpid q.history)
                    ++ (codes " - " ++ to_string (H.gettid q.history))))
              q))
      else p
