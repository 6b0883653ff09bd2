-- ===== src/Server/Tests.antt =====
-- Starts of the server in a host that has the executable and no running server.
use py_capio.Base.{
  Bool, ◌||◌, ◌&&◌, ◌+◌, ◌≡◌, ◌≢◌, ◌⊎◌, refl, ℤ, pos, negsuc, Bytes, true, false, some, [], ◌∷◌,
  codes, bytes_eq, to_string, digits, if◌then◌else◌,
}
use py_capio.Server.{
  capio_server, capio_dir, capio_workflow_name, capio_app_name, capio_log_level, History, Host,
  Process, returned, became, Image, Config, getenv, setenv, shm_opened, fd_closed, shm_unlinked,
  forked, slept, client_initialized, lock_name, bootstrap_capio_server, libcapio_init, printed,
  prepare, set_preamble, greet, launch, after_fork, resolve, release, attach, init_environ,
  server_env, argv_of, arg_slots,
}
use py_capio.Server.Locking.{
  taken, given_back, forks, is_gone, bootstrap-given_back, bootstrap-forks,
}
use py_capio.Server.Search.{IsFirst, resolve-IsFirst}
use py_capio.Server.Launch.{server-image}
use py_capio.Server.Calls.{inits, teardowns, perform}
use py_capio.Server.Lifecycle.{KillsOwn, perform-KillsOwn}
use py_capio.Server.Tagging.{Tagged, perform-Tagged}
use py_capio.Server.Clients.{alternates, is_client, perform-alternates}
use py_capio.Server.Aside.{client_events}

abbrev executable : Bytes
executable = codes "/s"

-- The server is up once it was forked.
abbrev is_up : History → Bool
is_up [] = false
is_up (forked pid ∷ h) = true
is_up (_ ∷ h) = is_up h

-- `pid` is what the fork returns: 0 in the child.
abbrev pub host : ℤ → Host
host pid = record {
  shm_open = λ h name. pos 5;
  file_exists =
      λ h path. some (bytes_eq path executable || (is_up h && bytes_eq path (codes "/dev/shm/w")));
  fork = λ h. pid;
  gethostname = λ h. some (codes "n");
  getpid = λ h. pos 9;
  gettid = λ h. pos 9;
  strerror = λ h. codes "e";
  execve = λ h image. true;
}

abbrev pub config : Config
config = record {
  dir = codes "/d";
  app_name = codes "a";
  workflow_name = codes "w";
  exec_path = executable;
  cl_config = [];
  await_seconds = 5;
}

-- The same workflow for another application.
abbrev other : Config
other = record config { app_name = codes "b" }

abbrev pub blank : Process
blank = record {
  libcapio_initialized = false;
  capio_server_thread_id = negsuc 0;
  libcapio_preamble = [];
  environ = [];
  history = [];
}

abbrev started : Process
started = record {
  libcapio_initialized = true;
  capio_server_thread_id = pos 77;
  libcapio_preamble = codes "[[LIBCAPIO::n::a::9]] ";
  environ = init_environ config [];
  history =
      client_initialized
      ∷ shm_unlinked (lock_name (codes "w"))
      ∷ fd_closed (pos 5)
      ∷ slept 5
      ∷ printed (codes "[[LIBCAPIO::n::a::9]]  Started CAPIO server with  PID: 77")
      ∷ forked (pos 77)
      ∷ printed (codes "[[LIBCAPIO::n::a::9]]  Booting up CAPIO server instance")
      ∷ shm_opened (lock_name (codes "w")) (pos 5)
      ∷ [];
}

starts : libcapio_init (host (pos 77)) config blank ≡ (returned (pos 77), started)
unfolding getenv setenv init_environ libcapio_init prepare set_preamble greet to_string digits
    bootstrap_capio_server launch resolve after_fork release attach
starts = refl

abbrev image : Image
image = record {
  path = executable;
  argv = argv_of (arg_slots executable []);
  env = server_env config (init_environ config []);
}

abbrev child : Process
child = record {
  libcapio_initialized = false;
  capio_server_thread_id = negsuc 0;
  libcapio_preamble = codes "[[LIBCAPIO::n::a::9]] ";
  environ = init_environ config [];
  history =
      forked (pos 0)
      ∷ printed (codes "[[LIBCAPIO::n::a::9]]  Booting up CAPIO server instance")
      ∷ shm_opened (lock_name (codes "w")) (pos 5)
      ∷ [];
}

becomes : libcapio_init (host (pos 0)) config blank ≡ (became image, child)
unfolding getenv setenv init_environ libcapio_init prepare set_preamble greet to_string digits
    bootstrap_capio_server launch resolve after_fork release attach
becomes = refl

perform-KillsOwn_example :
    KillsOwn
      (perform (host (pos 77)) (inits config ∷ teardowns true ∷ inits config ∷ []) blank).history
perform-KillsOwn_example =
    perform-KillsOwn (host (pos 77)) (inits config ∷ teardowns true ∷ inits config ∷ []) []

perform-Tagged_example :
    let q = perform (host (pos 77)) (inits config ∷ teardowns true ∷ inits other ∷ []) blank in
    (q.libcapio_preamble ≡ codes "[[LIBCAPIO::n::a::9]] ")
    × Tagged (codes "[[LIBCAPIO::n::a::9]] ") q.history
unfolding to_string digits
perform-Tagged_example =
    perform-Tagged (host (pos 77)) config (teardowns true ∷ inits other ∷ []) [] (codes "n") refl

perform-alternates_example :
    let q = perform (host (pos 77)) (inits config ∷ teardowns true ∷ inits config ∷ []) blank in
    (alternates (client_events q.history) ≡ true)
    × (is_client (client_events q.history) ≡ q.libcapio_initialized)
perform-alternates_example =
    perform-alternates (host (pos 77)) (inits config ∷ teardowns true ∷ inits config ∷ []) []

bootstrap-given_back_example :
    let (run, q) = bootstrap_capio_server (host (pos 77)) config blank in
    taken q.history + given_back blank.history
    ≡ given_back q.history + taken blank.history + (if is_gone run then 1 else 0)
bootstrap-given_back_example = bootstrap-given_back (host (pos 77)) config blank

bootstrap-forks_example :
    let q = (bootstrap_capio_server (host (pos 77)) config blank).1 in
    (forks q.history ≡ 0)
    ⊎ ((forks q.history ≡ 1)
        × ((host (pos 77)).file_exists [] (codes "/dev/shm/w") ≡ some false)
        × (pos 5 ≢ negsuc 0))
bootstrap-forks_example = bootstrap-forks (host (pos 77)) config blank

server-image_example :
    (image.argv ≡ executable ∷ codes "--no-config" ∷ [])
    × ((h : History) × ((host (pos 0)).file_exists h image.path ≡ some true))
    × ((h : History) × ((host (pos 0)).file_exists h (codes "/dev/shm/w") ≡ some false))
    × (getenv capio_dir image.env ≡ some (codes "/d"))
    × (getenv capio_workflow_name image.env ≡ some (codes "w"))
    × (getenv capio_app_name image.env ≡ some (codes "a"))
    × (getenv capio_log_level image.env ≡ some (codes "-1"))
unfolding getenv
server-image_example = server-image (host (pos 0)) config blank child image becomes

-- "/a" has no executable; the second entry of PATH, "/", has.
abbrev root_host : Host
root_host = record (host (pos 0)) {
  file_exists = λ h path. some (bytes_eq path (codes "/capio_server"));
}

abbrev searching : Process
searching = record blank { environ = (codes "PATH", codes "/a:/:/b") ∷ [] }

resolve-IsFirst_example :
    IsFirst root_host [] capio_server
      (codes "/a" ∷ codes "/" ∷ codes "/b" ∷ [])
      (resolve root_host capio_server searching)
unfolding getenv
resolve-IsFirst_example =
    resolve-IsFirst root_host searching (codes "/a" ∷ codes "/" ∷ []) (codes "/b") refl refl refl
