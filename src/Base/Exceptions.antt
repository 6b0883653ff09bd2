-- ===== src/Base/Exceptions.antt =====
-- How a call ends: with a value, by an exception, or in undefined behaviour.
use py_capio.Base.Int.{ℤ}
use py_capio.Base.Lists.{Bytes}

-- What a `PyCapioException` reports (PyCapioException.hpp), by its place in the code.
pub data Message : Type 0 where
  write_failed : ℤ → Message
  not_initialized open_failed : Message
  readdir_unsupported mkdir_unsupported lseek_unsupported stat_unsupported : Message
  no_server_executable : Message
  -- The preamble of the process, the path of the executable, and the text of the error.
  execve_failure : Bytes → Bytes → Bytes → Message

-- `stop_iteration` is pybind11's, `length_error` that of `std::string::resize`, `filesystem_error`
-- that of `std::filesystem`, `logic_error` that of a string made from a null pointer (libstdc++).
pub data Exception : Type 0 where
  py_capio_exception : Message → Exception
  stop_iteration length_error filesystem_error logic_error : Exception

-- `undefined` is undefined behaviour: a write or a read outside a buffer.
pub data Outcome {ℓ} (A : Type ℓ) : Type ℓ where
  ok : A → Outcome A
  raised : Exception → Outcome A
  undefined : Outcome A
