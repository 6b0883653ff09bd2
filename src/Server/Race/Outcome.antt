-- ===== src/Server/Race/Outcome.antt =====
-- The end of a startup of several processes (include/_libcapio_impl.hpp, `bootstrap_capio_server`
-- and `StartupSemaphore`).
use py_capio.Base.{
  ℕ, ◌≡◌, refl, ap, ◌≤◌, ◌<◌, zero, suc, Bool, true, false, ◌||◌, ◌&&◌, List, [], ◌∷◌,
  if◌then◌else◌, ltb, arith, subst, sym,
}
use py_capio.Server.Race.{
  Stage, checking, opening, holding, starting, waiting, finished, Workflow, advance, Action,
  advances, serves, child_throws, act, run, initial,
}
use py_capio.Server.Race.Counting.{total, all_below, total-move, total_none, weight-le-total}
use py_capio.Server.Race.Bounds.{can_start, run-possible_servers}
use py_capio.Server.Race.Progress.{own_steps, run-finished}

-- Every process finds the executable, and its fork succeeds.
abbrev pub all_good : List Action → Bool
all_good [] = true
all_good (advances i good ∷ actions) = good && all_good actions
all_good (serves ∷ actions) = all_good actions
all_good (child_throws ∷ actions) = false

in_lock : Stage → ℕ
in_lock checking = 0
in_lock opening = 0
in_lock holding = 1
in_lock starting = 1
in_lock waiting = 0
in_lock finished = 0

-- The process has got past the lock, or has found a server or the lock taken.
has_passed : Stage → Bool
has_passed checking = false
has_passed opening = false
has_passed holding = false
has_passed starting = true
has_passed waiting = true
has_passed finished = true

-- The lock counts the processes that have it; somebody has started a server, or has the lock for
-- it, where a process has gone on.
record Sound (n : ℕ) (s : Workflow) : Type 0 where
  counted : total in_lock n s.stages ≡ (if s.held then 1 else 0)
  begun : (i : ℕ) → has_passed (s.stages i) ≡ true → (s.up || (ltb 0 s.servers || s.held)) ≡ true
  begun_starting : (i : ℕ) → s.stages i ≡ starting → 0 < s.servers

advance-Sound : (n i : ℕ) (s : Workflow) → i < n → Sound n s → Sound n (advance i true s)
unfolding advance in_lock has_passed
advance-Sound n i s h v = record {
  counted = ground (
    arith,
    v.counted,
    weight-le-total in_lock i n s.stages,
    total-move in_lock i (if s.up then finished else opening) n s,
    total-move in_lock i waiting n s,
    total-move in_lock i holding n s,
    total-move in_lock i starting n s,
    total-move in_lock i finished n s,
  );
  begun = λ j p. ground (arith, v.begun j, v.begun i, v.begun_starting i);
  begun_starting = λ j e. ground (arith, v.begun_starting j);
}

run-Sound :
    (n : ℕ) (actions : List Action) (s : Workflow)
    → all_good actions ≡ true
    → all_below n actions ≡ true
    → Sound n s
    → Sound n (run actions s)
unfolding run act
run-Sound n [] s g h v = v
run-Sound n (advances i good ∷ actions) s g h v =
    let okay : good ≡ true = ground arith in
    subst (λ b. Sound n (run actions (advance i b s))) (sym okay)
      (run-Sound n actions (advance i true s) (ground arith) (ground arith)
        (advance-Sound n i s (ground arith) v))
run-Sound n (serves ∷ actions) s g h v =
    run-Sound n actions (record s { up = true }) g h
      (record { counted = v.counted; begun = λ i p. refl; begun_starting = v.begun_starting })
run-Sound n (child_throws ∷ actions) s g h v = cc

initial-Sound : (n : ℕ) → Sound n initial
unfolding in_lock has_passed
initial-Sound n = record {
  counted = total_none in_lock n initial.stages (λ i l. refl);
  begun = λ i p. cc;
  begun_starting = λ i e. cc;
}

total-initial : (n : ℕ) → total (can_start false) n initial.stages ≡ n
unfolding total
total-initial zero = refl
total-initial (suc n) = omega (arith, total-initial n)

-- The first `n` processes, at least one, take four steps or more each, in any order, while no other
-- process takes one; they find the executable and can fork, and no `execve` fails: in the end the
-- startup lock is free, a server is up or has been started, and no more servers have been started
-- than there are processes.
pub run-served :
    (n : ℕ) (actions : List Action)
    → 0 < n
    → all_good actions ≡ true
    → all_below n actions ≡ true
    → ((i : ℕ) → i < n → 4 ≤ own_steps i actions)
    → let s = run actions initial in
      (s.held ≡ false) × ((s.up || ltb 0 s.servers) ≡ true) × (s.servers ≤ n)
unfolding in_lock has_passed
run-served n actions some_process good below steps =
    let v = run-Sound n actions initial good below (initial-Sound n) in
    let done : (i : ℕ) → i < n → (run actions initial).stages i ≡ finished =
      λ i l. run-finished actions i initial (steps i l) in
    let nobody = total_none in_lock n (run actions initial).stages (λ i l. ap in_lock (done i l)) in
    let free : (run actions initial).held ≡ false = ground (arith, v.counted, nobody) in
    let bound = run-possible_servers n actions initial below in
    (
      free,
      ground (arith, v.begun 0 (ap has_passed (done 0 some_process)), free),
      omega (arith, bound, total-initial n),
    )
