-- ===== src/Server/Race/Bounds.antt =====
-- How many servers the processes of a workflow start (include/_libcapio_impl.hpp,
-- `bootstrap_capio_server`).
use py_capio.Base.{
  if_elim, ◌==◌, ◌+◌, ℕ, ◌≡◌, ◌≤◌, ◌<◌, zero, suc, Bool, true, false, List, [], ◌∷◌, if◌then◌else◌,
  arith,
}
use py_capio.Server.Race.{
  Stage, checking, opening, holding, starting, waiting, finished, Workflow, advance, Action,
  advances, serves, child_throws, act, run,
}
use py_capio.Server.Race.Counting.{total, all_below, total-move}

-- A process that can still start a server: one that has found none, or one that has not looked, as
-- long as none is up.
abbrev pub can_start : Bool → Stage → ℕ
can_start up checking = if up then 0 else 1
can_start up opening = 1
can_start up holding = 1
can_start up starting = 0
can_start up waiting = 0
can_start up finished = 0

-- The servers that run, and those that the first `n` processes can still start.
abbrev pub possible_servers : ℕ → Workflow → ℕ
possible_servers n s = s.servers + total (can_start s.up) n s.stages

can_start-true-le : (stage : Stage) → can_start true stage ≤ can_start false stage
can_start-true-le checking = omega arith
can_start-true-le opening = omega arith
can_start-true-le holding = omega arith
can_start-true-le starting = omega arith
can_start-true-le waiting = omega arith
can_start-true-le finished = omega arith

can_start-up :
    (up : Bool) (n : ℕ) (stages : ℕ → Stage)
    → total (can_start true) n stages ≤ total (can_start up) n stages
unfolding total
can_start-up up zero stages = omega arith
can_start-up true (suc n) stages = omega (arith, can_start-up true n stages)
can_start-up false (suc n) stages =
    omega (arith, can_start-true-le (stages n), can_start-up false n stages)

module _ (n : ℕ) where
  advance_bound :
      (i : ℕ) (good : Bool) (s : Workflow)
      → i < n
      → possible_servers n (advance i good s) ≤ possible_servers n s
  unfolding advance
  advance_bound i good s h = ground (
    arith,
    total-move (can_start s.up) i (if s.up then finished else opening) n s,
    total-move (can_start s.up) i waiting n s,
    total-move (can_start s.up) i holding n s,
    total-move (can_start s.up) i starting n s,
    total-move (can_start s.up) i finished n s,
  )

  -- In any order of the steps of the first `n` processes, with a server that comes up and children
  -- whose `execve` fails between them, the servers that were started and those that these processes
  -- can still start are never more than before; a process can start one if it has the lock or is
  -- about to open it, or has not looked for a server and none is up.
  pub run-possible_servers :
      (actions : List Action) (s : Workflow)
      → all_below n actions ≡ true
      → possible_servers n (run actions s) ≤ possible_servers n s
  unfolding run act
  run-possible_servers [] s h = omega arith
  run-possible_servers (advances i good ∷ actions) s h =
      grind (arith, run-possible_servers actions (advance i good s), advance_bound i good s)
  run-possible_servers (serves ∷ actions) s h =
      omega (
        arith,
        run-possible_servers actions (record s { up = true }) h,
        can_start-up s.up n s.stages,
      )
  run-possible_servers (child_throws ∷ actions) s h =
      if_elim (λ t. possible_servers n (run actions t) ≤ possible_servers n s) (s.servers == 0)
        (λ _. run-possible_servers actions s h)
        (λ _. run-possible_servers actions (record s { held = false }) h)
