-- ===== src/Context/Starting.antt =====
-- The first call of a function decorated with `CapioContext` (pycapio/__init__.py), and the handler that
-- it registers.
use py_capio.Base.{◌≡◌, refl, ℤ, is_positive, Bytes, true, false, [], ◌∷◌, if◌then◌else◌}
use py_capio.Server.{Host, Process, Run, History, exit_handled, killed, libcapio_init}
use py_capio.Server.Reentry.{teardown_ends}
use py_capio.PyModule.Functions.{pycapio_teardown}
use py_capio.Context.{
  ProxyFunctions, Interpreter, Settings, Exit, patched, initialise, Body, begin, silence, wrapper,
  exec,
}
use py_capio.Context.Program.{exit_handlers}
use py_capio.Context.Restoring.{exec-keeps}

module _ (F : Type 0) (proxies : ProxyFunctions F) (abspath : Bytes → Bytes) (H : Host) where
  -- A first call goes by how `pycapio_init` ends.
  pub wrapper_began :
      {R : Type 0} (o : Settings) (func : Interpreter F → Exit R × Interpreter F)
      (s : Interpreter F) (r : Run × Process)
      → s.py_capio_initialized ≡ false
      → libcapio_init H
          (record o.config { dir = abspath o.config.dir })
          (silence F proxies abspath H o s).process
        ≡ r
      → wrapper F proxies abspath H o func s
        ≡ patched F proxies abspath H func
            (begin F proxies abspath H o (abspath o.config.dir) (silence F proxies abspath H o s) r)
  unfolding wrapper initialise silence
  wrapper_began o func s r fresh e = rw (fresh, e) refl

  -- The module is initialised with the server of the number `z`, and has done `h` to the outside.
  abbrev pub Serves : ℤ → History → Interpreter F → Type 0
  Serves z h s =
      (s.py_capio_initialized ≡ true)
      × (s.at_exit ≡ true ∷ [])
      × (s.process.libcapio_initialized ≡ true)
      × (s.process.capio_server_thread_id ≡ z)
      × (s.process.history ≡ h)

  initialise-Serves :
      (z : ℤ) (h : History) (o : Settings) (s : Interpreter F)
      → Serves z h s
      → Serves z h (initialise F proxies abspath H o (silence F proxies abspath H o s)).1
  unfolding initialise silence
  initialise-Serves z h o s (begun, registered, up, id, same) =
      rw begun (refl, registered, up, id, same)

  -- What decorated functions do further leaves the server to the handler.
  pub exec-Serves :
      (z : ℤ) (h : History) (body : Body F) (s : Interpreter F)
      → Serves z h s
      → Serves z h (exec F proxies abspath H body s).1
  exec-Serves z h = exec-keeps F proxies abspath H (Serves z h) (λ b s v. v) (initialise-Serves z h)

  pub exit_handlers-Serves :
      (z : ℤ) (h : History) (s : Interpreter F)
      → Serves z h s
      → (exit_handlers s.at_exit s.process).history
        ≡ (if is_positive z then killed z ∷ exit_handled ∷ h else exit_handled ∷ h)
  unfolding exit_handlers pycapio_teardown
  exit_handlers-Serves z h s (begun, registered, up, id, same) =
      rw (registered, ← id, ← same) (teardown_ends H s.process up)
