-- ===== src/Server/Lifecycle.antt =====
-- `libcapio_init` and `libcapio_teardown` (include/_libcapio_impl.hpp), any number of calls in any order.
use py_capio.Base.{
  ◌≡◌, ◌⊎◌, inl, inr, refl, sym, subst, if_elim, ◌&&◌, ℤ, Bytes, negsuc, Bool, true, false, List,
  [], ◌∷◌, arith, if◌then◌else◌, is_positive, Bool-cases,
}
use py_capio.Server.{
  StartupSemaphore, log, printed, client_initialized, forked, killed, History, Host, Process, Run,
  returned, threw, became, Environ, Config, after_fork, launch, release, bootstrap_capio_server,
  libcapio_init, prepare, libcapio_teardown, attach,
}
use py_capio.Server.Calls.{Call, perform, perform_keeps}
use py_capio.Server.Printing.{greet_keeps, prepare_keeps}
use py_capio.Server.Locking.{bootstrap_cases, boot_lock, booting}

-- A process was forked with this number.
abbrev pub WasForked : ℤ → History → Type 0
WasForked z [] = ⊥
WasForked z (forked y ∷ h) = (y ≡ z) ⊎ WasForked z h
WasForked z (_ ∷ h) = WasForked z h

-- Every process that was killed is a child that had been forked before.
abbrev pub KillsOwn : History → Type 0
KillsOwn [] = Unit
KillsOwn (killed z ∷ h) = (is_positive z ≡ true) × WasForked z h × KillsOwn h
KillsOwn (_ ∷ h) = KillsOwn h

-- A number that is held stands for such a child, if it is positive.
abbrev pub Known : ℤ → History → Type 0
Known z h = (is_positive z ≡ false) ⊎ WasForked z h

pub record Inv (p : Process) : Type 0 where
  pub own : KillsOwn p.history
  pub known : Known p.capio_server_thread_id p.history

prints-Inv : (x : Bytes) (p : Process) → Inv p → Inv (log (printed x) p)
prints-Inv x p v = record { own = v.own; known = v.known }

module _ (H : Host) where
  -- What the start of a server adds to a history: no kill, and the fork of the number it returns.
  abbrev Starts : Process → Run × Process → Type 0
  Starts p (run, q) =
      (KillsOwn p.history → KillsOwn q.history)
      × ((z : ℤ) → WasForked z p.history → WasForked z q.history)
      × (q.capio_server_thread_id ≡ p.capio_server_thread_id)
      × ((z : ℤ) → run ≡ returned z → is_positive z ≡ true → WasForked z q.history)

  launch-Starts : (c : Config) (p : Process) → Starts p (launch H c p)
  unfolding launch after_fork
  launch-Starts c p = (λ k. ground arith, λ z f. ground arith, ground arith, λ z e pz. ground arith)

  release-Starts :
      (lock : StartupSemaphore) (run : Run) (p q : Process)
      → Starts p (run, q)
      → Starts p (run, release lock run q)
  unfolding release
  release-Starts lock (became image) p q s = s
  release-Starts lock (returned z) p q (own, keeps, same, new) = (
    λ k. ground (arith, own k),
    λ z f. ground (arith, keeps z f),
    ground arith,
    λ z e pz. ground (arith, new z e pz),
  )
  release-Starts lock (threw e) p q (own, keeps, same, new) = (
    λ k. ground (arith, own k),
    λ z f. ground (arith, keeps z f),
    ground arith,
    λ z e pz. ground (arith, new z e pz),
  )

  bootstrap-Starts : (c : Config) (p : Process) → Starts p (bootstrap_capio_server H c p)
  bootstrap-Starts c p =
      bootstrap_cases H c p (Starts p) (λ k. k, λ z f. f, refl, λ z e pz. ground arith)
        (λ k. k, λ z f. f, refl, λ z e pz. ground arith)
        (λ h e. (λ k. k, λ z f. f, refl, λ z e pz. ground arith))
        λ h e.
          release-Starts (boot_lock H c p) (launch H c (booting H c p)).0 p
            (launch H c (booting H c p)).1 (launch-Starts c (booting H c p))

  Starts-Inv : (p : Process) (r : Run × Process) → Inv p → Starts p r → Inv r.1
  Starts-Inv p (run, q) v (own, keeps, same, new) = record {
    own = own v.own;
    known = subst (λ z. Known z q.history) (sym same) (known-mono v.known);
  }
    where
      known-mono :
          Known p.capio_server_thread_id p.history → Known p.capio_server_thread_id q.history
      known-mono (inl n) = inl n
      known-mono (inr f) = inr (keeps _ f)

  -- The number that is kept behind a bootstrap.
  Known-kept :
      (z id : ℤ) (h : History)
      → (is_positive z ≡ true → WasForked z h)
      → Known id h
      → Known (if is_positive z then z else id) h
  Known-kept z id h new k = elim (Bool-cases (is_positive z)) [
    | inl y ↦ rw y (inr (new y))
    | inr n ↦ rw n k
  ]

  attach-Inv : (p : Process) (r : Run × Process) → Inv p → Starts p r → Inv (attach H r.0 r.1).1
  unfolding attach
  attach-Inv p (returned z, q) v s =
      let v' = Starts-Inv p (returned z, q) v s in
      let id = if is_positive z then z else q.capio_server_thread_id in
      let g =
        greet_keeps Inv (λ x p. prints-Inv _ p) (prints-Inv []) H
          (log client_initialized (record q { capio_server_thread_id = id }))
          (record {
            own = v'.own;
            known = Known-kept z q.capio_server_thread_id q.history (s.3 z refl) v'.known;
          }) in
      record { own = g.own; known = g.known }
  attach-Inv p (threw e, q) v s = Starts-Inv p (threw e, q) v s
  attach-Inv p (became image, q) v s = Starts-Inv p (became image, q) v s

  pub libcapio_init-Inv : (c : Config) (p : Process) → Inv p → Inv (libcapio_init H c p).1
  unfolding libcapio_init
  libcapio_init-Inv c p v =
      let p' = prepare H c p in
      let v' =
        prepare_keeps Inv prints-Inv H (λ x q w. record { own = w.own; known = w.known })
          (λ env q w. record { own = w.own; known = w.known }) c p v in
      if_elim (λ (r : Run × Process). Inv r.1) p'.libcapio_initialized (λ _. v')
        (λ _. attach-Inv p' (bootstrap_capio_server H c p') v' (bootstrap-Starts c p'))

  Known-WasForked : (z : ℤ) (h : History) → is_positive z ≡ true → Known z h → WasForked z h
  Known-WasForked z h y (inl n) = cc
  Known-WasForked z h y (inr f) = f

  pub libcapio_teardown-Inv : (b : Bool) (p : Process) → Inv p → Inv (libcapio_teardown b p)
  unfolding libcapio_teardown
  libcapio_teardown-Inv b p v =
      if_elim Inv p.libcapio_initialized
        (λ _.
          if_elim Inv (b && is_positive p.capio_server_thread_id)
            (λ y. record {
              own = (
                ground arith,
                Known-WasForked p.capio_server_thread_id p.history (ground arith) v.known,
                v.own,
              );
              known = inl refl;
            })
            (λ _. record { own = v.own; known = v.known }))
        (λ _. v)

  -- A process that starts with no server, and makes any calls of `libcapio_init` and
  -- `libcapio_teardown` in any order, sends SIGTERM to no process but a child that it had forked
  -- before.
  pub perform-KillsOwn :
      (calls : List Call) (environ : Environ)
      → KillsOwn
          (perform H calls (record {
            libcapio_initialized = false;
            capio_server_thread_id = negsuc 0;
            libcapio_preamble = [];
            environ = environ;
            history = [];
          })).history
  perform-KillsOwn calls environ =
      (perform_keeps H Inv libcapio_init-Inv libcapio_teardown-Inv calls _
        (record { own = tt; known = inl refl })).own
