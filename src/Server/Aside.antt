-- ===== src/Server/Aside.antt =====
-- The start of a server and the client side of the process (include/_libcapio_impl.hpp,
-- `bootstrap_capio_server`).
use py_capio.Base.{◌≡◌, refl, [], ◌∷◌, arith, ◌∙◌}
use py_capio.Server.{
  StartupSemaphore, client_initialized, exit_handled, History, Host, Process, Run, returned, threw,
  became, Config, launch, after_fork, release, bootstrap_capio_server,
}
use py_capio.Server.Locking.{bootstrap_cases, boot_lock, booting}

-- What a history says of the client side, newest first.
abbrev pub client_events : History → History
client_events [] = []
client_events (client_initialized ∷ h) = client_initialized ∷ client_events h
client_events (exit_handled ∷ h) = exit_handled ∷ client_events h
client_events (_ ∷ h) = client_events h

module _ (H : Host) where
  -- The start of a server is no matter of the client side.
  abbrev pub Aside : Process → Run × Process → Type 0
  Aside p (run, q) =
      (client_events q.history ≡ client_events p.history)
      × (q.libcapio_initialized ≡ p.libcapio_initialized)

  launch-Aside : (c : Config) (p : Process) → Aside p (launch H c p)
  unfolding launch after_fork
  launch-Aside c p = ground arith

  release-Aside :
      (lock : StartupSemaphore) (run : Run) (p : Process) → Aside p (run, release lock run p)
  unfolding release
  release-Aside lock (became image) p = (refl, refl)
  release-Aside lock (returned z) p = ground arith
  release-Aside lock (threw e) p = ground arith

  pub bootstrap-Aside : (c : Config) (p : Process) → Aside p (bootstrap_capio_server H c p)
  bootstrap-Aside c p =
      bootstrap_cases H c p (Aside p) (refl, refl) (refl, refl) (λ h e. (refl, refl))
        λ h e.
          let (a, b) = launch-Aside c (booting H c p) in
          let (a', b') =
            release-Aside (boot_lock H c p) (launch H c (booting H c p)).0
              (launch H c (booting H c p)).1 in
          (a' ∙ a, b' ∙ b)
