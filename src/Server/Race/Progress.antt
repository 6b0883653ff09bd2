-- ===== src/Server/Race/Progress.antt =====
-- The steps that a process takes, whatever the others do between them
-- (include/_libcapio_impl.hpp, `bootstrap_capio_server`).
use py_capio.Base.{
  if_elim, ◌==◌, ◌+◌, ℕ, ◌≡◌, refl, ◌≤◌, Bool, true, false, List, [], ◌∷◌, if◌then◌else◌, ◌==◌,
  arith,
}
use py_capio.Server.Race.{
  Stage, checking, opening, holding, starting, waiting, finished, Workflow, advance, Action,
  advances, serves, child_throws, act, run,
}

-- The steps of one process.
abbrev pub own_steps : ℕ → List Action → ℕ
own_steps i [] = 0
own_steps i (advances j good ∷ actions) = (if j == i then 1 else 0) + own_steps i actions
own_steps i (serves ∷ actions) = own_steps i actions
own_steps i (child_throws ∷ actions) = own_steps i actions

-- The steps to the end, at most.
abbrev pub steps_left : Stage → ℕ
steps_left checking = 4
steps_left opening = 3
steps_left holding = 2
steps_left starting = 1
steps_left waiting = 1
steps_left finished = 0

steps_left-finished : (stage : Stage) → steps_left stage ≤ 0 → stage ≡ finished
steps_left-finished checking h = absurd (omega arith)
steps_left-finished opening h = absurd (omega arith)
steps_left-finished holding h = absurd (omega arith)
steps_left-finished starting h = absurd (omega arith)
steps_left-finished waiting h = absurd (omega arith)
steps_left-finished finished h = refl

-- A step takes its own process on, and no other.
advance-steps_left :
    (i j : ℕ) (good : Bool) (s : Workflow) (m : ℕ)
    → steps_left (s.stages i) ≤ (if j == i then 1 else 0) + m
    → steps_left ((advance j good s).stages i) ≤ m
unfolding advance
advance-steps_left i j good s m h = ground arith

-- A process that has taken the steps that were left to it, four at most, is finished, wherever it
-- stood, whatever the other processes do between its steps, and whether its calls succeed or not.
pub run-finished :
    (actions : List Action) (i : ℕ) (s : Workflow)
    → steps_left (s.stages i) ≤ own_steps i actions
    → (run actions s).stages i ≡ finished
unfolding run act
run-finished [] i s h = steps_left-finished (s.stages i) h
run-finished (advances j good ∷ actions) i s h =
    run-finished actions i (advance j good s) (advance-steps_left i j good s _ h)
run-finished (serves ∷ actions) i s h = run-finished actions i (record s { up = true }) h
run-finished (child_throws ∷ actions) i s h =
    if_elim (λ t. (run actions t).stages i ≡ finished) (s.servers == 0)
      (λ _. run-finished actions i s h) (λ _. run-finished actions i (record s { held = false }) h)
