-- ===== src/Server/Locking.antt =====
-- `StartupSemaphore` in `bootstrap_capio_server` (include/_libcapio_impl.hpp): how often the lock is
-- taken and given back, and the forks.
use py_capio.Base.{
  Option, none, some, filesystem_error, ℕ, suc, ◌+◌, ◌≡◌, ◌≢◌, ◌⊎◌, inl, inr, refl, sym, subst,
  Bool-cases, ℤ, negsuc, eq_ℤ, ◌||◌, Bool, true, false, [], ◌∷◌, ◌++◌, codes, arith, if◌then◌else◌,
}
use py_capio.Server.{
  StartupSemaphore, shm_opened, shm_unlinked, forked, slept, History, Host, Process, Run, returned,
  threw, became, Config, after_fork, launch, lock_name, release, bootstrap_capio_server, say,
  already_started, booting_up,
}

-- How often the lock has been taken, how often it has been given back, and the forks.
abbrev pub taken : History → ℕ
taken [] = 0
taken (shm_opened name fp ∷ h) = if eq_ℤ fp (negsuc 0) then taken h else suc (taken h)
taken (_ ∷ h) = taken h

abbrev pub given_back : History → ℕ
given_back [] = 0
given_back (shm_unlinked name ∷ h) = suc (given_back h)
given_back (_ ∷ h) = given_back h

abbrev pub forks : History → ℕ
forks [] = 0
forks (forked pid ∷ h) = suc (forks h)
forks (_ ∷ h) = forks h

-- The process that called is gone.
abbrev pub is_gone : Run → Bool
is_gone (became image) = true
is_gone (returned z) = false
is_gone (threw e) = false

-- The answers to a test whether a file exists.
seen_cases : (o : Option Bool) → (o ≡ none) ⊎ (o ≡ some true) ⊎ (o ≡ some false)
seen_cases none = inl refl
seen_cases (some true) = inr (inl refl)
seen_cases (some false) = inr (inr refl)

module _ (H : Host) where
  pub launch_counts :
      (c : Config) (p : Process)
      → let q = (launch H c p).1 in
        (taken q.history ≡ taken p.history)
        × (given_back q.history ≡ given_back p.history)
        × ((forks q.history ≡ forks p.history) ⊎ (forks q.history ≡ suc (forks p.history)))
  unfolding launch after_fork
  launch_counts c p = ground arith

  pub release_counts :
      (lock : StartupSemaphore) (run : Run) (p : Process)
      → let q = release lock run p in
        (taken q.history ≡ taken p.history)
        × (given_back q.history
            ≡ given_back p.history + (if is_gone run || eq_ℤ lock.fp (negsuc 0) then 0 else 1))
        × (forks q.history ≡ forks p.history)
  unfolding release
  release_counts lock (became image) p = ground arith
  release_counts lock (returned z) p = ground arith
  release_counts lock (threw e) p = ground arith

  module _ (c : Config) (p : Process) where
    abbrev pub lock_fp : ℤ
    lock_fp = H.shm_open p.history (lock_name c.workflow_name)

    abbrev pub boot_lock : StartupSemaphore
    boot_lock = record { fp = lock_fp; lock_to_check = lock_name c.workflow_name }

    abbrev pub locked : Process
    locked = record p { history = shm_opened (lock_name c.workflow_name) lock_fp ∷ p.history }

    abbrev pub booting : Process
    booting = say booting_up locked

    -- The four ways through the start.
    bootstrap-fails :
        H.file_exists p.history (codes "/dev/shm/" ++ c.workflow_name) ≡ none
        → bootstrap_capio_server H c p ≡ (threw filesystem_error, p)
    unfolding bootstrap_capio_server
    bootstrap-fails h = rw (h, bootstrap_capio_server)

    pub bootstrap-up :
        H.file_exists p.history (codes "/dev/shm/" ++ c.workflow_name) ≡ some true
        → bootstrap_capio_server H c p ≡ (returned (negsuc 0), say already_started p)
    unfolding bootstrap_capio_server
    bootstrap-up h = rw (h, bootstrap_capio_server)

    bootstrap-busy :
        H.file_exists p.history (codes "/dev/shm/" ++ c.workflow_name) ≡ some false
        → eq_ℤ lock_fp (negsuc 0) ≡ true
        → bootstrap_capio_server H c p
          ≡ (returned (negsuc 0), record locked { history = slept 3 ∷ locked.history })
    unfolding bootstrap_capio_server release
    bootstrap-busy h e = rw (h, bootstrap_capio_server, e, release, e)

    bootstrap-launch :
        H.file_exists p.history (codes "/dev/shm/" ++ c.workflow_name) ≡ some false
        → eq_ℤ lock_fp (negsuc 0) ≡ false
        → bootstrap_capio_server H c p ≡ (
          (launch H c booting).0,
          release boot_lock (launch H c booting).0 (launch H c booting).1,
        )
    unfolding bootstrap_capio_server
    bootstrap-launch h e = rw (h, bootstrap_capio_server, e)

    -- A property of the start holds if it holds of each.
    pub bootstrap_cases {ℓ} :
        (P : Run × Process → Type ℓ)
        → P (threw filesystem_error, p)
        → P (returned (negsuc 0), say already_started p)
        → (H.file_exists p.history (codes "/dev/shm/" ++ c.workflow_name) ≡ some false
            → eq_ℤ lock_fp (negsuc 0) ≡ true
            → P (returned (negsuc 0), record locked { history = slept 3 ∷ locked.history }))
        → (H.file_exists p.history (codes "/dev/shm/" ++ c.workflow_name) ≡ some false
            → eq_ℤ lock_fp (negsuc 0) ≡ false
            → P (
              (launch H c booting).0,
              release boot_lock (launch H c booting).0 (launch H c booting).1,
            ))
        → P (bootstrap_capio_server H c p)
    bootstrap_cases P failed up busy launched =
        elim (seen_cases (H.file_exists p.history (codes "/dev/shm/" ++ c.workflow_name))) [
          | inl h ↦ subst P (sym (bootstrap-fails h)) failed
          | inr (inl h) ↦ subst P (sym (bootstrap-up h)) up
          | inr (inr h) ↦ elim (Bool-cases (eq_ℤ lock_fp (negsuc 0))) [
            | inl e ↦ subst P (sym (bootstrap-busy h e)) (busy h e)
            | inr e ↦ subst P (sym (bootstrap-launch h e)) (launched h e)
          ]
        ]

  -- A start of the server gives the startup lock back as often as it takes it, on every way out
  -- that returns or throws; where the process becomes the server, one lock is left.
  pub bootstrap-given_back :
      (c : Config) (p : Process)
      → let (run, q) = bootstrap_capio_server H c p in
        taken q.history + given_back p.history
        ≡ given_back q.history + taken p.history + (if is_gone run then 1 else 0)
  bootstrap-given_back c p =
      bootstrap_cases c p
        (λ (run, q).
          taken q.history + given_back p.history
          ≡ given_back q.history + taken p.history + (if is_gone run then 1 else 0))
        (omega arith) (omega arith) (λ h e. ground arith)
        λ h e. ground (
          arith,
          launch_counts c (booting c p),
          release_counts (boot_lock c p) (launch H c (booting c p)).0 (launch H c (booting c p)).1,
        )

  -- A start of the server forks at most once, and only where the workflow has no shared memory yet
  -- and the lock was got.
  pub bootstrap-forks :
      (c : Config) (p : Process)
      → let q = (bootstrap_capio_server H c p).1 in
        (forks q.history ≡ forks p.history)
        ⊎ ((forks q.history ≡ suc (forks p.history))
            × (H.file_exists p.history (codes "/dev/shm/" ++ c.workflow_name) ≡ some false)
            × (H.shm_open p.history (lock_name c.workflow_name) ≢ negsuc 0))
  bootstrap-forks c p =
      bootstrap_cases c p
        (λ r.
          (forks r.1.history ≡ forks p.history)
          ⊎ ((forks r.1.history ≡ suc (forks p.history))
              × (H.file_exists p.history (codes "/dev/shm/" ++ c.workflow_name) ≡ some false)
              × (H.shm_open p.history (lock_name c.workflow_name) ≢ negsuc 0)))
        (inl refl) (inl refl) (λ h e. inl refl)
        λ h e. ground (
          arith,
          launch_counts c (booting c p),
          release_counts (boot_lock c p) (launch H c (booting c p)).0 (launch H c (booting c p)).1,
        )
