-- ===== src/Server/Printing.antt =====
-- What `libcapio_init` (include/_libcapio_impl.hpp) does beside its work: the lines it prints and the
-- preamble.
use py_capio.Base.{
  no_server_executable, execve_failure, [], ◌≡◌, ◌⊎◌, inl, inr, refl, sym, ap, subst, Bool, true,
  false, Bytes, ◌++◌, codes, to_string, if_elim, Option, none, some, is_empty, arith,
}
use py_capio.Server.{
  report, Host, Process, Environ, Config, Event, log, forked, slept, printed, say, Run, returned,
  threw, became, StartupSemaphore, is_acquired, release, launch, after_fork, bootstrap_capio_server,
  set_preamble, init_environ, warn_host, greet, is_talkative, prepare,
}
use py_capio.Server.Locking.{bootstrap_cases, boot_lock, booting}

-- The process after a launch: as before, forked, a parent that has waited, or one without a child.
launch_cases :
    (H : Host) (c : Config) (p : Process)
    → let q = (launch H c p).1 in
      let child = log (forked (H.fork p.history)) p in
      (q ≡ p)
      ⊎ (q ≡ child)
      ⊎ (q ≡ report no_server_executable p)
      ⊎ (q
          ≡ report
              (execve_failure child.libcapio_preamble c.exec_path (H.strerror child.history))
              child)
      ⊎ (q
          ≡ log (slept c.await_seconds) (
              say
                (codes " Started CAPIO server with  PID: " ++ to_string (H.fork p.history))
                child))
      ⊎ (q ≡ say (codes "Failed to FORK server thread. Error: " ++ H.strerror child.history) child)
unfolding launch after_fork
launch_cases H c p = ground arith

abbrev pub is_printed : Event → Bool
is_printed (printed line) = true
is_printed _ = false

module _ {ℓ} (P : Process → Type ℓ)
    (events : (e : Event) (p : Process) → is_printed e ≡ false → P p → P (log e p))
    (says : (t : Bytes) (p : Process) → P p → P (say t p)) (H : Host) where
  -- What events and lines keep, a launch keeps.
  launch_keeps : (c : Config) (p : Process) → P p → P (launch H c p).1
  launch_keeps c p v =
      let child = events (forked (H.fork p.history)) p refl v in
      elim (launch_cases H c p) [
        | inl e ↦ subst P (sym e) v
        | inr (inl e) ↦ subst P (sym e) child
        | inr (inr (inl e)) ↦ subst P (sym e) (events _ _ refl v)
        | inr (inr (inr (inl e))) ↦ subst P (sym e) (events _ _ refl child)
        | inr (inr (inr (inr (inl e)))) ↦ subst P (sym e) (events _ _ refl (says _ _ child))
        | inr (inr (inr (inr (inr e)))) ↦ subst P (sym e) (says _ _ child)
      ]

  release_keeps : (lock : StartupSemaphore) (run : Run) (p : Process) → P p → P (release lock run p)
  unfolding release
  release_keeps lock (became image) p v = v
  release_keeps lock (returned z) p v =
      if_elim P (is_acquired lock) (λ _. events _ _ refl (events _ _ refl v)) (λ _. v)
  release_keeps lock (threw e) p v =
      if_elim P (is_acquired lock) (λ _. events _ _ refl (events _ _ refl v)) (λ _. v)

  -- What events and lines keep, a start of the server keeps.
  pub bootstrap_keeps : (c : Config) (p : Process) → P p → P (bootstrap_capio_server H c p).1
  bootstrap_keeps c p v =
      bootstrap_cases H c p (λ r. P r.1) v (says _ _ v) (λ h e. events _ _ refl (events _ _ refl v))
        λ h e.
          release_keeps (boot_lock H c p) (launch H c (booting H c p)).0
            (launch H c (booting H c p)).1
            (launch_keeps c (booting H c p) (says _ _ (events _ _ refl v)))

module _ {ℓ} (P : Process → Type ℓ) (says : (t : Bytes) (p : Process) → P p → P (say t p))
    (blank : (p : Process) → P p → P (log (printed []) p)) (H : Host) where
  -- What lines keep, the last lines of `libcapio_init` keep.
  pub greet_keeps : (p : Process) → P p → P (greet H p)
  unfolding greet
  greet_keeps p v =
      if_elim P (is_talkative p.environ)
        (λ _. blank _ (says _ _ (says _ _ (says _ _ (says _ _ v))))) (λ _. v)

module _ {ℓ} (P : Process → Type ℓ)
    (prints : (x : Bytes) (p : Process) → P p → P (log (printed x) p)) (H : Host) where
  warn_host_keeps : (o : Option Bytes) (p : Process) → P p → P (warn_host H o p)
  warn_host_keeps none p v = prints _ p v
  warn_host_keeps (some name) p v = v

  -- What printing, the preamble and the environment keep, the start of `libcapio_init` keeps.
  pub prepare_keeps :
      ((t : Bytes) (p : Process) → P p → P (record p { libcapio_preamble = t }))
      → ((env : Environ) (p : Process) → P p → P (record p { environ = env }))
      → (c : Config) (p : Process) → P p
      → P (prepare H c p)
  unfolding prepare set_preamble
  prepare_keeps names sets c p v = sets _ _ (
      if_elim P (is_empty p.libcapio_preamble)
        (λ _. names _ _ (warn_host_keeps (H.gethostname p.history) p v)) (λ _. v))

module _ (H : Host) where
  -- The flag and the number are left as they are, and the environment is set up.
  pub prepare-libcapio_initialized :
      (c : Config) (p : Process) → (prepare H c p).libcapio_initialized ≡ p.libcapio_initialized
  prepare-libcapio_initialized c p =
      prepare_keeps (λ q. q.libcapio_initialized ≡ p.libcapio_initialized) (λ x q e. e) H
        (λ t q e. e) (λ env q e. e) c p refl

  pub prepare-environ :
      (c : Config) (p : Process) → (prepare H c p).environ ≡ init_environ c p.environ
  unfolding prepare set_preamble
  prepare-environ c p = ap (init_environ c) (
      if_elim (λ (q : Process). q.environ ≡ p.environ) (is_empty p.libcapio_preamble)
        (λ _.
          warn_host_keeps (λ q. q.environ ≡ p.environ) (λ x q e. e) H (H.gethostname p.history) p
            refl)
        (λ _. refl))

  -- Where there is a preamble already, only the environment may change.
  pub prepare_again :
      (c : Config) (p : Process)
      → is_empty p.libcapio_preamble ≡ false
      → prepare H c p ≡ record p { environ = init_environ c p.environ }
  unfolding prepare
  prepare_again c p h = rw (h, prepare)

  pub prepare-is_empty :
      (c : Config) (p : Process) → is_empty (prepare H c p).libcapio_preamble ≡ false
  unfolding prepare set_preamble
  prepare-is_empty c p = ground arith
