-- ===== src/Server/Race/Holders.antt =====
-- The number of processes that have the startup lock (include/_libcapio_impl.hpp,
-- `StartupSemaphore`), where the `execve` of children may fail.
use py_capio.Base.{
  if_elim, ◌==◌, ◌+◌, ℕ, ◌≡◌, refl, ◌≤◌, ◌<◌, suc, Bool, true, false, List, [], ◌∷◌, if◌then◌else◌,
  arith,
}
use py_capio.Server.Race.{
  Stage, checking, opening, holding, starting, waiting, finished, Workflow, advance, Action,
  advances, serves, child_throws, act, run, initial,
}
use py_capio.Server.Race.Counting.{total, all_below, total-move, total_none}

-- The process has the lock.
abbrev pub has_lock : Stage → ℕ
has_lock checking = 0
has_lock opening = 0
has_lock holding = 1
has_lock starting = 1
has_lock waiting = 0
has_lock finished = 0

-- The children whose `execve` fails.
abbrev pub throws : List Action → ℕ
throws [] = 0
throws (advances i good ∷ actions) = throws actions
throws (serves ∷ actions) = throws actions
throws (child_throws ∷ actions) = suc (throws actions)

abbrev pub holders : ℕ → Workflow → ℕ
holders n s = total has_lock n s.stages

module _ (n : ℕ) where
  advance-holders :
      (i : ℕ) (good : Bool) (s : Workflow) (lost : ℕ)
      → i < n
      → holders n s ≤ lost + (if s.held then 1 else 0)
      → holders n (advance i good s) ≤ lost + (if (advance i good s).held then 1 else 0)
  unfolding advance
  advance-holders i good s lost h v = ground (
    arith,
    total-move has_lock i (if s.up then finished else opening) n s,
    total-move has_lock i waiting n s,
    total-move has_lock i holding n s,
    total-move has_lock i starting n s,
    total-move has_lock i finished n s,
  )

  run-holders_from :
      (actions : List Action) (s : Workflow) (lost : ℕ)
      → all_below n actions ≡ true
      → holders n s ≤ lost + (if s.held then 1 else 0)
      → holders n (run actions s) ≤ lost + throws actions + (if (run actions s).held then 1 else 0)
  unfolding run act
  run-holders_from [] s lost h v = omega (arith, v)
  run-holders_from (advances i good ∷ actions) s lost h v =
      run-holders_from actions (advance i good s) lost (ground arith)
        (advance-holders i good s lost (ground arith) v)
  run-holders_from (serves ∷ actions) s lost h v =
      run-holders_from actions (record s { up = true }) lost h v
  run-holders_from (child_throws ∷ actions) s lost h v =
      let freed =
        run-holders_from actions (record s { held = false }) (suc lost) h (ground (arith, v)) in
      let kept = run-holders_from actions s lost h v in
      if_elim
        (λ t.
          holders n (run actions t)
          ≤ lost + suc (throws actions) + (if (run actions t).held then 1 else 0))
        (s.servers == 0) (λ _. omega (arith, kept)) (λ _. omega (arith, freed))

  -- The first `n` processes start the server in any order of their steps, with a server that comes
  -- up and children whose `execve` fails between them: the processes that have the startup lock are
  -- never more than the `execve` that have failed, and one more where the lock exists.
  pub run-holders :
      (actions : List Action)
      → all_below n actions ≡ true
      → let s = run actions initial in holders n s ≤ throws actions + (if s.held then 1 else 0)
  run-holders actions h =
      let none = total_none has_lock n initial.stages (λ i l. refl) in
      let start : holders n initial ≤ 0 + (if initial.held then 1 else 0) = omega (arith, none) in
      omega (arith, run-holders_from actions initial 0 h start)
