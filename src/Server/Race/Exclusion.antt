-- ===== src/Server/Race/Exclusion.antt =====
-- The startup lock (include/_libcapio_impl.hpp, `StartupSemaphore`) among several processes.
use py_capio.Base.{
  ℕ, ◌≡◌, refl, ap, suc, Bool, true, false, List, [], ◌∷◌, if◌then◌else◌, arith, if_elim,
}
use py_capio.Server.Race.{
  Stage, checking, opening, holding, starting, waiting, finished, Workflow, move, advance, Action,
  advances, serves, child_throws, act, run, initial, all_executed,
}

-- The process has the lock.
abbrev pub is_inside : Stage → Bool
is_inside checking = false
is_inside opening = false
is_inside holding = true
is_inside starting = true
is_inside waiting = false
is_inside finished = false

pub record Exclusive (s : Workflow) : Type 0 where
  pub locked : (i : ℕ) → is_inside (s.stages i) ≡ true → s.held ≡ true
  pub alone : (i j : ℕ) → is_inside (s.stages i) ≡ true → is_inside (s.stages j) ≡ true → i ≡ j

module _ (i : ℕ) (s : Workflow) (v : Exclusive s) where
  -- The process stays without the lock, or leaves while nobody looks at the lock.
  move_outside : (stage : Stage) → is_inside stage ≡ false → Exclusive (move i stage s)
  move_outside stage o = record {
    locked = λ j h. ground (arith, v.locked j);
    alone = λ j k h g. ground (arith, v.alone j k);
  }

  move_in : s.held ≡ false → Exclusive (move i holding (record s { held = true }))
  move_in free = record {
    locked = λ j h. refl;
    alone = λ j k h g. ground (arith, v.locked j, v.locked k);
  }

  move_within :
      is_inside (s.stages i) ≡ true
      → (n : ℕ) → Exclusive (move i starting (record s { servers = n }))
  move_within inside n = record {
    locked = λ j h. ground (arith, v.locked j, v.locked i);
    alone = λ j k h g. ground (arith, v.alone j k, v.alone i k, v.alone j i);
  }

  move_out : is_inside (s.stages i) ≡ true → Exclusive (move i finished (record s { held = false }))
  move_out inside = record {
    locked = λ j h. ground (arith, v.alone i j);
    alone = λ j k h g. ground (arith, v.alone j k);
  }

advance-Exclusive :
    (i : ℕ) (good : Bool) (s : Workflow) → Exclusive s → Exclusive (advance i good s)
unfolding advance
advance-Exclusive i good s v = go (s.stages i) refl
  where
    go :
        (stage : Stage)
        → s.stages i ≡ stage
        → Exclusive (elim stage [
          | checking ↦ move i (if s.up then finished else opening) s
          | opening ↦ if s.held then move i waiting s else move i holding (record s { held = true })
          | holding ↦
              if good
              then move i starting (record s { servers = suc s.servers })
              else move i finished (record s { held = false })
          | starting ↦ move i finished (record s { held = false })
          | waiting ↦ move i finished s
          | finished ↦ s
        ])
    go checking e = move_outside i s v (if s.up then finished else opening) (ground arith)
    go opening e =
        if_elim Exclusive s.held (λ _. move_outside i s v waiting refl) (λ free. move_in i s v free)
    go holding e =
        if_elim Exclusive good (λ _. move_within i s v (ap is_inside e) (suc s.servers))
          (λ _. move_out i s v (ap is_inside e))
    go starting e = move_out i s v (ap is_inside e)
    go waiting e = move_outside i s v finished refl
    go finished e = v

pub run-Exclusive :
    (actions : List Action) (s : Workflow)
    → all_executed actions ≡ true
    → Exclusive s
    → Exclusive (run actions s)
unfolding run act
run-Exclusive [] s h v = v
run-Exclusive (advances i good ∷ actions) s h v =
    run-Exclusive actions (advance i good s) h (advance-Exclusive i good s v)
run-Exclusive (serves ∷ actions) s h v =
    run-Exclusive actions (record s { up = true }) h (record { locked = v.locked; alone = v.alone })
run-Exclusive (child_throws ∷ actions) s h v = cc

-- Any number of processes that start the server in any order of their steps, and no failing
-- `execve`: at most one process has the startup lock at a time, and the lock exists while one has
-- it.
pub run-alone :
    (actions : List Action) (i j : ℕ)
    → all_executed actions ≡ true
    → is_inside ((run actions initial).stages i) ≡ true
    → is_inside ((run actions initial).stages j) ≡ true
    → (i ≡ j) × ((run actions initial).held ≡ true)
run-alone actions i j h inside inside' =
    let v : Exclusive (run actions initial) =
      run-Exclusive actions initial h (record { locked = λ k e. cc; alone = λ k l e f. cc }) in
    (v.alone i j inside inside', v.locked i inside)

module _ (i : ℕ) (s : Workflow) where
  steps :
      (stage : Stage) (good good' : Bool)
      → s.stages i ≡ stage
      → is_inside stage ≡ true
      → let s' = run (advances i good ∷ advances i good' ∷ []) s in
        (s'.held ≡ false) × (s'.stages i ≡ finished)
  unfolding run act advance
  steps checking good good' e h = cc
  steps opening good good' e h = cc
  steps holding good good' e h = ground arith
  steps starting good good' e h = ground arith
  steps waiting good good' e h = cc
  steps finished good good' e h = cc

  -- A process that has the startup lock has given it back, and is finished, after two more steps of
  -- its own, whether its calls succeed or not.
  pub run-released :
      (good good' : Bool)
      → is_inside (s.stages i) ≡ true
      → let s' = run (advances i good ∷ advances i good' ∷ []) s in
        (s'.held ≡ false) × (s'.stages i ≡ finished)
  run-released good good' h = steps (s.stages i) good good' refl h

  -- A process that has found no shared memory, and finds the lock free, starts one more server,
  -- whether or not a server is up by then.
  pub late_start :
      s.stages i ≡ opening
      → s.held ≡ false
      → (run (advances i true ∷ advances i true ∷ []) s).servers ≡ suc s.servers
  unfolding run act advance
  late_start e free = ground arith
