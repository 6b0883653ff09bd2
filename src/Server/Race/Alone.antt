-- ===== src/Server/Race/Alone.antt =====
-- The steps of one process with nobody in between, and `bootstrap_capio_server`
-- (include/_libcapio_impl.hpp).
use py_capio.Base.{
  Option, none, some, ◌+◌, ℕ, ◌≡◌, ap, ◌∙◌, sym, negsuc, eq_ℤ, is_positive, Bool, false, not, ◌&&◌,
  List, [], ◌∷◌, ◌++◌, codes, if◌then◌else◌, arith,
}
use py_capio.Server.{
  Host, Process, Config, Run, returned, threw, became, launch, bootstrap_capio_server,
}
use py_capio.Server.Locking.{booting, lock_fp}
use py_capio.Server.Race.{checking, finished, Workflow, advance, Action, advances, act, run}

-- The test has answered that there is none.
abbrev pub is_missing : Option Bool → Bool
is_missing none = false
is_missing (some there) = not there

-- The call reports a server that it has started.
abbrev pub is_started : Run → Bool
is_started (returned z) = is_positive z
is_started (threw e) = false
is_started (became image) = false

abbrev pub four_steps : ℕ → Bool → List Action
four_steps i good = advances i good ∷ advances i good ∷ advances i good ∷ advances i good ∷ []

run-four_steps :
    (i : ℕ) (good : Bool) (s : Workflow)
    → s.stages i ≡ checking
    → let s' = run (four_steps i good) s in
      (s'.servers ≡ s.servers + (if not s.up && (not s.held && good) then 1 else 0))
      × (s'.held ≡ s.held)
      × (s'.stages i ≡ finished)
unfolding run act advance
run-four_steps i good s e = ground arith

module _ (H : Host) (c : Config) (p : Process) where
  pub is_started-bootstrap : is_started (bootstrap_capio_server H c p).0 ≡ (
      is_missing (H.file_exists p.history (codes "/dev/shm/" ++ c.workflow_name))
      && (not (eq_ℤ (lock_fp H c p) (negsuc 0)) && is_started (launch H c (booting H c p)).0))
  unfolding bootstrap_capio_server
  is_started-bootstrap = ground arith

  -- Four steps of a process with nobody in between are `bootstrap_capio_server`, as its caller sees
  -- it: where the tests for the shared memory and for the lock answer what the workflow's state
  -- says, one more server is started exactly if the call returns the number of one, the lock is as
  -- before, and the process is finished.
  pub run-bootstrap :
      (i : ℕ) (s : Workflow)
      → s.stages i ≡ checking
      → H.file_exists p.history (codes "/dev/shm/" ++ c.workflow_name) ≡ some s.up
      → eq_ℤ (lock_fp H c p) (negsuc 0) ≡ s.held
      → let s' = run (four_steps i (is_started (launch H c (booting H c p)).0)) s in
        (s'.servers ≡ s.servers + (if is_started (bootstrap_capio_server H c p).0 then 1 else 0))
        × (s'.held ≡ s.held)
        × (s'.stages i ≡ finished)
  run-bootstrap i s e up held =
      let (servers, kept, done) =
        run-four_steps i (is_started (launch H c (booting H c p)).0) s e in
      let good = is_started (launch H c (booting H c p)).0 in
      let same = is_started-bootstrap ∙ (λ j. is_missing (up j) && (not (held j) && good)) in
      (servers ∙ ap (λ b. s.servers + (if b then 1 else 0)) (sym same), kept, done)
