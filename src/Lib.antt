-- ===== src/Lib.antt =====
-- PyCAPIO intercepts the file I/O of a Python program and hands it to CAPIO, a server that streams
-- files between the programs of a workflow. Its native layer is the C++ code under include/ and
-- src/: it starts and stops the server, wraps CAPIO's handlers in POSIX-like calls, and gives
-- Python a file object, a directory iterator and a stand-in for `os.path`. This library models that
-- layer and the Python code around it.
--
-- The parts and their files:
--
--   Posix       The libcapio_* wrappers (include/_libcapio_impl.hpp). Each asks a handler of the
--               CAPIO library; where that answers CAPIO_POSIX_SYSCALL_REQUEST_SKIP, the wrapper
--               delegates to glibc or throws. The handlers, glibc and errno are the record `Capio`,
--               a parameter of all that calls them. `World` is the state that they keep, which the
--               model never looks into: a theorem says by a function such as `remaining` what it
--               reads off it. Posix/Laws has what a theorem assumes of a descriptor (read(2)),
--               Posix/Skipping is about the skip code, Posix/Sample is a CAPIO in memory.
--   IoWrapper   The file object `IOWrapper` (include/IOWrapper.hpp): a record of its members, and
--               one function per method that takes and returns the record and the world. `wrap`
--               stands for the template parameter. IoWrapper/Lines says what the lines of a text
--               are; Readline, Readlines, ReadAll and ReadSized compare the methods with it.
--               IoWrapper/Output has `write`, `writelines`, `seek`, `close`, `flush` and the
--               destructor; IoWrapper/Ahead is about reading and writing the same object.
--   Scandir     `CapioDirEntry` and `ScandirIteratorWrapper` (src/ScandirIteratorWrapper.cpp), with
--               the loop of `listdir_proxy` (pycapio/__init__.py) over the iterator.
--   FsPath      The members of `std::filesystem::path` that the code calls, on the text of a path;
--               FsPath/Normal has the normal form, by a walk over the pieces between slashes.
--   OsPath      `OsPath` (src/OsPath.cpp). What the standard library finds in the file system, for
--               `relpath`, `getmtime` and `samefile`, is the record `Filesystem` of OsPath/Files.
--   Server      `StartupSemaphore`, `bootstrap_capio_server`, `libcapio_init`, `libcapio_teardown`
--               and the global state (include/_libcapio_impl.hpp). What the process does to the
--               outside is a history of events, the lines on the terminal among them; what the
--               operating system answers is the record `Host`, whose answers may depend on that
--               history. A process is seen by one thread, whose preamble it has. Server/Calls has
--               rows of calls, Server/Clients is about the client side over them, Server/Tagging
--               about the lines. Server/Race cuts the start at the calls that other processes can
--               see, for several processes that start at the same time; there a server comes up at
--               any time, and the `execve` of a child fails at any time behind the first fork,
--               which allows more orders than the code. Server/Race/Interleaved compares the steps
--               with a call of the function.
--   PyCapioException
--               The text of an exception (src/PyCapioException.cpp), with the messages of the
--               places that throw; what the interpreter answers to the capture of its stack is the
--               record `Python`.
--   PyModule    The module `_pycapio` (src/pycapio.cpp). A call of a method is a constructor of
--               `IoCall`, `ScanCall` or `EntryCall`, and `invoke` gives its value; `with_block` is
--               a `with` statement whose body is a row of calls. PyModule/Directory has the
--               iterator and its entries, PyModule/Paths the path class, PyModule/Functions the
--               functions with their defaults. PyModule/Reader is an abstract reader of a text,
--               which PyModule/Session and PyModule/Ending compare the methods and blocks with;
--               PyModule/Closing and PyModule/Writing are about blocks, PyModule/Directory/Listing
--               about rows of calls of the iterator.
--   Proxies     The proxies of pycapio/__init__.py: the tests that pass a call to CAPIO, the flags
--               of `open_proxy`, and, in Proxies/Calls, the whole of each proxy over the other
--               parts; the original functions are the record `Builtins`. Proxies/Pipeline writes a
--               file and reads it.
--   Context     `CapioContext` (pycapio/__init__.py), which binds the names to the proxies while a
--               decorated function runs; `Body` is what such functions do with the names.
--               Context/Program goes on to the end of the interpreter, with its exit handlers.
--   Launcher    The decorated function of pycapio/__main__.py: which script it runs, and with which
--               code it ends. The two calls of `runpy` are the record `Runpy`. Launcher/Main has
--               `main`, from the parsed arguments over CapioContext to the end of the interpreter;
--               what the script does with the names and with decorated functions is a `Body`.
--   Base        Names shared by the others: native numbers, signed integers and their conversion to
--               `size_t` and `int`, byte strings, the operations of `std::string`, exceptions.
--
-- A call ends in a value, in an exception, or in undefined behaviour (`Outcome`); a start of the
-- server may also end by becoming another program (`Run`). The test `std::filesystem::exists`
-- answers or raises. Conversions of signed counts to `size_t` wrap modulo 2^64 as the code's do,
-- and a string longer than `std::string::max_size()` raises `std::length_error`. A byte stored
-- behind the end of a string is undefined behaviour, and so is `read()` with a chunk size above the
-- two bytes of the literal that `tmp` is made from. An unset PATH is the exception that libstdc++
-- throws for it.
--
-- Loops take fuel and answer `none` when it runs out. A round of `readline` or `read()` that goes
-- on has read at least one byte, so one unit more than there are pending bytes is enough for each,
-- and `readlines` needs as many rounds; a scan needs one more than there are entries.
--
-- Not modelled: the conversion of arguments and results by pybind11, and the parsing of the
-- launcher's arguments by argparse, which are libraries; a first argument of `open` that is no
-- path, and paths of type bytes; a NUL in the arguments of the server's start; the log, the warning
-- of a debug build, and, outside the start of the server, where it is the event `reported`, the
-- copy of an exception's text on the terminal; the allocation of a string of a chunk size above
-- `max_size()`. What is left of the headers are declarations and documentation.
pub mod Base
pub mod Posix
pub mod IoWrapper
pub mod FsPath
pub mod OsPath
pub mod Scandir
pub mod Server
pub mod PyCapioException
pub mod PyModule
pub mod Proxies
pub mod Context
pub mod Launcher
