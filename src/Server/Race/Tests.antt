-- ===== src/Server/Race/Tests.antt =====
-- Two processes that start a server at the same time.
use py_capio.Base.{
  ℕ, ◌+◌, ◌≡◌, ◌≤◌, ◌<◌, refl, zero, suc, Bool, true, false, not, ◌&&◌, ◌||◌, ltb, arith, List, [],
  ◌∷◌, if◌then◌else◌,
}
use py_capio.Server.{launch, resolve, after_fork, bootstrap_capio_server}
use py_capio.Base.{pos}
use py_capio.Server.Locking.{taken, given_back}
use py_capio.Server.Tests.{host, config, blank}
use py_capio.Server.Race.{
  finished, child_throws, Workflow, advance, Action, advances, serves, act, run, initial,
}
use py_capio.Server.Race.Holders.{holders, run-holders}
use py_capio.Server.Race.Bounds.{possible_servers, run-possible_servers}
use py_capio.Server.Race.Progress.{own_steps}
use py_capio.Server.Race.Outcome.{run-served}
use py_capio.Server.Race.Counting.{total}
use py_capio.Server.Race.Interleaved.{starts, has_started, others, advance-bootstrap}

-- Both find no server; the first one starts one and goes.
abbrev first_started : List Action
first_started =
    advances 0 true
    ∷ advances 1 true
    ∷ advances 0 true
    ∷ advances 0 true
    ∷ serves
    ∷ advances 0 true
    ∷ []

abbrev after_first : Workflow
after_first = run first_started initial

-- The second one then starts another.
second_server :
    (run (advances 1 true ∷ advances 1 true ∷ []) (run first_started initial)).servers ≡ 2
unfolding run act advance
second_server = refl

-- The `execve` of a child of the first one fails, and the second one gets the lock too.
abbrev both_inside : List Action
both_inside =
    advances 0 true
    ∷ advances 1 true
    ∷ advances 0 true
    ∷ advances 0 true
    ∷ child_throws
    ∷ advances 1 true
    ∷ []

two_inside : holders 2 (run both_inside initial) ≡ 2
unfolding run act advance total
two_inside = refl

run-holders_example : let s = run both_inside initial in holders 2 s ≤ 1 + (if s.held then 1 else 0)
run-holders_example = run-holders 2 both_inside refl

-- Process 3 starts a server, process 1 comes between its steps, and the server is up before its
-- last.
abbrev good : Bool
good = starts (host (pos 77)) config blank

abbrev taking : Workflow
taking = run (advances 1 true ∷ []) (advance 3 good initial)

abbrev working : Workflow
working = run (advances 1 true ∷ []) (advance 3 good taking)

abbrev leaving : Workflow
leaving = run (serves ∷ []) (advance 3 good working)

advance-bootstrap_example :
    let started = has_started (host (pos 77)) config blank in
    let q = (bootstrap_capio_server (host (pos 77)) config blank).1 in
    let got = not false && not taking.held in
    ((advance 3 good initial).servers ≡ 0)
    × ((advance 3 good taking).servers ≡ taking.servers)
    × ((advance 3 good working).servers ≡ working.servers + (if started then 1 else 0))
    × ((advance 3 good leaving).servers ≡ leaving.servers)
    × ((advance 3 good taking).held ≡ taking.held || got)
    × ((advance 3 good working).held ≡ working.held && (not got || started))
    × ((advance 3 good leaving).held ≡ leaving.held && not started)
    × (taken q.history ≡ 0 + (if got then 1 else 0))
    × (given_back q.history ≡ 0 + (if got then 1 else 0))
    × ((advance 3 good leaving).stages 3 ≡ finished)
unfolding run act advance bootstrap_capio_server launch resolve after_fork
advance-bootstrap_example =
    advance-bootstrap (host (pos 77)) config blank 3 initial taking working leaving refl
      (others 3 (advances 1 true ∷ []) (advance 3 good initial) refl)
      (others 3 (advances 1 true ∷ []) (advance 3 good taking) refl)
      (others 3 (serves ∷ []) (advance 3 good working) refl) refl refl refl

-- The first one starts a server and the second one finds the lock taken.
abbrev both : List Action
both =
    advances 0 true
    ∷ advances 1 true
    ∷ advances 0 true
    ∷ advances 1 true
    ∷ advances 0 true
    ∷ advances 1 true
    ∷ serves
    ∷ advances 1 true
    ∷ advances 0 true
    ∷ []

both_steps : (i : ℕ) → i < 2 → 4 ≤ own_steps i both
both_steps zero l = omega arith
both_steps (suc zero) l = omega arith
both_steps (suc (suc i)) l = absurd (omega arith)

run-served_example :
    let s = run both initial in
    (s.held ≡ false) × ((s.up || ltb 0 s.servers) ≡ true) × (s.servers ≤ 2)
run-served_example = run-served 2 both (omega arith) refl refl both_steps

-- One server runs, and the second process has not seen it.
possible_late : possible_servers 2 after_first ≡ 2
unfolding run act advance total
possible_late = refl

run-possible_servers_example :
    possible_servers 2 (run both after_first) ≤ possible_servers 2 after_first
run-possible_servers_example = run-possible_servers 2 both after_first refl
