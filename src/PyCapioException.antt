-- ===== src/PyCapioException.antt =====
-- include/PyCapioException.hpp and src/PyCapioException.cpp: the text of an exception, with the
-- Python stack where it was made. What the interpreter answers to the five calls that capture the
-- stack is the parameter `Python`. The copy of the text on the terminal is an event of Server.
pub mod Sizes
pub mod Tests
use py_capio.Base.{
  Bytes, c_str, to_string, List, [], ◌∷◌, ◌++◌, codes, Message, write_failed, not_initialized,
  open_failed, readdir_unsupported, mkdir_unsupported, lseek_unsupported, stat_unsupported,
  no_server_executable, execve_failure,
}

-- The messages at the places that throw.
unfoldable pub error_message : Message → Bytes
unfolding to_string
error_message (write_failed z) =
    codes "write failed: received from libcapio offset: " ++ to_string z
error_message not_initialized = codes "libcapio not initialized"
error_message open_failed = codes "libcapio_open failed"
error_message readdir_unsupported =
    codes "ERROR: libcapio readdir on non CAPIO directory not yet supported"
error_message mkdir_unsupported =
    codes "ERROR: libcapio readdir on non CAPIO directory not yet supported"
error_message lseek_unsupported =
    codes "ERROR: libcapio readdir on non CAPIO directory not yet supported"
error_message stat_unsupported =
    codes "ERROR: libcapio stat on non CAPIO directory not yet supported"
error_message no_server_executable = codes "Could not locate capio_server executable in PATH!"
error_message (execve_failure preamble exec_path strerror) =
    preamble ++ (exec_path ++ (10 ∷ codes " EXECVE failure: ") ++ strerror)

-- A call into the interpreter: its value, a Python error with its text, or any other exception.
pub data Attempt {ℓ} (A : Type ℓ) : Type ℓ where
  succeeded : A → Attempt A
  error_already_set : Bytes → Attempt A
  unknown : Attempt A

infixl 5 ◌>>=◌ ◌>>◌
abbrev ◌>>=◌ {ℓ κ} : {A : Type ℓ} {B : Type κ} → Attempt A → (A → Attempt B) → Attempt B
succeeded a >>= f = f a
error_already_set what >>= f = error_already_set what
unknown >>= f = unknown

abbrev ◌>>◌ {ℓ} : {B : Type ℓ} → Attempt (Unit {0}) → Attempt B → Attempt B
m >> k = m >>= λ _. k

-- `import traceback`, `import io`, `StringIO()`, `print_stack`, `getvalue`
pub record Python : Type 0 where
  pub traceback : Attempt (Unit {0})
  pub io : Attempt (Unit {0})
  pub string_io : Attempt (Unit {0})
  pub print_stack : Attempt (Unit {0})
  pub getvalue : Attempt Bytes

-- The `try` block, and its handlers.
abbrev print_to_string : Python → Attempt Bytes
print_to_string p = do p.traceback; p.io; p.string_io; p.print_stack; p.getvalue

abbrev caught : Attempt Bytes → Bytes
caught (succeeded stack) = stack
caught (error_already_set what) = codes "[failed to capture Python stack: " ++ (what ++ codes "]")
caught unknown = codes "[failed to capture Python stack: unknown error]"

pub capture_python_stack : Python → Bytes
capture_python_stack p = caught (print_to_string p)

-- `_message`, which `what()` returns.
pub what : Python → Bytes → Bytes
what p error_message = c_str (
    codes "PyCapioException: "
    ++ (error_message ++ ((10 ∷ codes "Python stack trace:") ++ (10 ∷ capture_python_stack p))))
