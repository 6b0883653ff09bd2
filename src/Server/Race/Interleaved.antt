-- ===== src/Server/Race/Interleaved.antt =====
-- The steps of one call of `bootstrap_capio_server` with the steps of other processes between them
-- (include/_libcapio_impl.hpp).
use py_capio.Base.{
  if_elim, ◌==◌, some, ◌+◌, ℕ, ◌≡◌, refl, ap, ◌∙◌, sym, negsuc, eq_ℤ, Bool, true, false, not, ◌&&◌,
  ◌||◌, List, [], ◌∷◌, ◌++◌, codes, ◌==◌, if◌then◌else◌, arith,
}
use py_capio.Server.{Host, Process, Config, returned, slept, log, launch, bootstrap_capio_server}
use py_capio.Server.Locking.{
  taken, given_back, is_gone, launch_counts, release_counts, locked, booting, boot_lock, lock_fp,
}
use py_capio.Server.Race.{
  Stage, checking, opening, holding, starting, waiting, finished, Workflow, advance, Action,
  advances, serves, child_throws, act, run,
}
use py_capio.Server.Race.Progress.{own_steps}
use py_capio.Server.Race.Alone.{is_missing, is_started, is_started-bootstrap}

-- The other processes, the servers and the children take any steps.
unfoldable pub Others : ℕ → Workflow → Workflow → Type 0
Others i s s' = (actions : List Action) × (own_steps i actions ≡ 0) × (run actions s ≡ s')

pub others :
    (i : ℕ) (actions : List Action) (s : Workflow)
    → own_steps i actions ≡ 0
    → Others i s (run actions s)
unfolding Others
others i actions s own = (actions, own, refl)

advance-others :
    (i j : ℕ) (good : Bool) (s : Workflow) (m : ℕ)
    → (if j == i then 1 else 0) + m ≡ 0
    → (m ≡ 0) × ((advance j good s).stages i ≡ s.stages i)
unfolding advance
advance-others i j good s m h = ground arith

-- The steps of others leave a process where it stands.
run-others :
    (actions : List Action) (i : ℕ) (s : Workflow)
    → own_steps i actions ≡ 0
    → (run actions s).stages i ≡ s.stages i
unfolding run act
run-others [] i s h = refl
run-others (advances j good ∷ actions) i s h =
    let (rest, same) = advance-others i j good s (own_steps i actions) h in
    run-others actions i (advance j good s) rest ∙ same
run-others (serves ∷ actions) i s h = run-others actions i (record s { up = true }) h
run-others (child_throws ∷ actions) i s h =
    if_elim (λ t. (run actions t).stages i ≡ s.stages i) (s.servers == 0)
      (λ _. run-others actions i s h) (λ _. run-others actions i (record s { held = false }) h)

Others-stages : (i : ℕ) (s s' : Workflow) → Others i s s' → s'.stages i ≡ s.stages i
unfolding Others
Others-stages i s s' (actions, own, e) = ap (λ t. t.stages i) (sym e) ∙ run-others actions i s own

-- Where a process stands after one, two and three steps, by what it has met.
abbrev after_check : Bool → Stage
after_check up = if up then finished else opening

abbrev after_open : Bool → Bool → Stage
after_open up held = if up then finished else if held then waiting else holding

abbrev after_fork : Bool → Bool → Bool → Stage
after_fork up held good = if not up && (not held && good) then starting else finished

advance-check :
    (i : ℕ) (good : Bool) (s : Workflow)
    → s.stages i ≡ checking
    → ((advance i good s).stages i ≡ after_check s.up) × ((advance i good s).servers ≡ s.servers)
unfolding advance
advance-check i good s e = ground arith

advance-open :
    (i : ℕ) (good : Bool) (s : Workflow) (up : Bool)
    → s.stages i ≡ after_check up
    → ((advance i good s).stages i ≡ after_open up s.held)
      × ((advance i good s).servers ≡ s.servers)
      × ((advance i good s).held ≡ s.held || (not up && not s.held))
unfolding advance
advance-open i good s up e = ground arith

advance-fork :
    (i : ℕ) (good : Bool) (s : Workflow) (up held : Bool)
    → s.stages i ≡ after_open up held
    → ((advance i good s).stages i ≡ after_fork up held good)
      × ((advance i good s).servers ≡ s.servers + (if not up && (not held && good) then 1 else 0))
      × ((advance i good s).held ≡ s.held && (not (not up && not held) || good))
unfolding advance
advance-fork i good s up held e = ground arith

advance-return :
    (i : ℕ) (good : Bool) (s : Workflow) (up held started : Bool)
    → s.stages i ≡ after_fork up held started
    → ((advance i good s).stages i ≡ finished)
      × ((advance i good s).servers ≡ s.servers)
      × ((advance i good s).held ≡ s.held && not (not up && (not held && started)))
unfolding advance
advance-return i good s up held started e = ground arith

module _ (H : Host) (c : Config) (p : Process) where
  -- A process that holds the lock finds the executable, and forks.
  abbrev pub starts : Bool
  starts = is_started (launch H c (booting H c p)).0

  abbrev pub has_started : Bool
  has_started = is_started (bootstrap_capio_server H c p).0

  -- The call itself takes the lock where it finds no shared memory and no lock, and gives it back.
  bootstrap-counts :
      is_gone (bootstrap_capio_server H c p).0 ≡ false
      → let q = (bootstrap_capio_server H c p).1 in
        let up = H.file_exists p.history (codes "/dev/shm/" ++ c.workflow_name) in
        let got : ℕ = if is_missing up && not (eq_ℤ (lock_fp H c p) (negsuc 0)) then 1 else 0 in
        (taken q.history ≡ taken p.history + got)
        × (given_back q.history ≡ given_back p.history + got)
  unfolding bootstrap_capio_server
  bootstrap-counts alive = ground (
    arith,
    launch_counts H c (booting H c p),
    release_counts H (boot_lock H c p) (launch H c (booting H c p)).0
        (launch H c (booting H c p)).1,
    release_counts H (boot_lock H c p) (returned (negsuc 0)) (log (slept 3) (locked H c p)),
  )

  -- A process takes its four steps, with any steps of other processes, servers and children between
  -- them; the test for the shared memory and the lock answer its call of `bootstrap_capio_server`
  -- as the workflow stands at the steps that ask them, and the call returns or throws. Then its
  -- third step starts a server exactly if the call returns the number of one, and its other steps
  -- start none; it takes the lock at the second step exactly if it has found neither shared memory
  -- nor lock, keeps it until the fourth exactly if a server was started, and gives it back at the
  -- third otherwise; the call's history takes and gives back the lock as often; and the process is
  -- finished.
  pub advance-bootstrap :
      (i : ℕ) (s1 s2 s3 s4 : Workflow)
      → s1.stages i ≡ checking
      → Others i (advance i starts s1) s2
      → Others i (advance i starts s2) s3
      → Others i (advance i starts s3) s4
      → H.file_exists p.history (codes "/dev/shm/" ++ c.workflow_name) ≡ some s1.up
      → eq_ℤ (lock_fp H c p) (negsuc 0) ≡ s2.held
      → is_gone (bootstrap_capio_server H c p).0 ≡ false
      → let q = (bootstrap_capio_server H c p).1 in
        let got = not s1.up && not s2.held in
        ((advance i starts s1).servers ≡ s1.servers)
        × ((advance i starts s2).servers ≡ s2.servers)
        × ((advance i starts s3).servers ≡ s3.servers + (if has_started then 1 else 0))
        × ((advance i starts s4).servers ≡ s4.servers)
        × ((advance i starts s2).held ≡ s2.held || got)
        × ((advance i starts s3).held ≡ s3.held && (not got || has_started))
        × ((advance i starts s4).held ≡ s4.held && not has_started)
        × (taken q.history ≡ taken p.history + (if got then 1 else 0))
        × (given_back q.history ≡ given_back p.history + (if got then 1 else 0))
        × ((advance i starts s4).stages i ≡ finished)
  advance-bootstrap i s1 s2 s3 s4 e o2 o3 o4 up held alive =
      let same =
        is_started-bootstrap H c p ∙ (λ j. is_missing (up j) && (not (held j) && starts)) in
      let (at1, none1) = advance-check i starts s1 e in
      let (at2, none2, lock2) = advance-open i starts s2 s1.up (Others-stages i _ s2 o2 ∙ at1) in
      let (at3, one3, lock3) =
        advance-fork i starts s3 s1.up s2.held (Others-stages i _ s3 o3 ∙ at2) in
      let (at4, none4, lock4) =
        advance-return i starts s4 s1.up s2.held starts (Others-stages i _ s4 o4 ∙ at3) in
      let counts = bootstrap-counts alive in ground (arith, up, held, same, counts)
