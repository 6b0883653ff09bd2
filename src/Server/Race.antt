-- ===== src/Server/Race.antt =====
-- include/_libcapio_impl.hpp, lines 49-163: several processes of one workflow that start the server
-- at the same time. `bootstrap_capio_server` is cut at its calls that other processes can see: the
-- test for the shared memory, `shm_open`, `fork`, and the destructor of the lock. Any order of the
-- steps of the processes is a list of actions; a server may come up at any time,
-- one that another program has started included, and the `execve` of a child fail at any time behind
-- the first fork, so these are more rows than the code allows.
pub mod Counting
pub mod Bounds
pub mod Progress
pub mod Outcome
pub mod Exclusion
pub mod Holders
pub mod Alone
pub mod Interleaved
pub mod Tests
use py_capio.Base.{ℕ, suc, Bool, true, false, List, [], ◌∷◌, ◌&&◌, ◌==◌, if◌then◌else◌}

-- Where a process stands.
pub data Stage : Type 0 where
  checking opening holding starting waiting finished : Stage

-- What the processes of the workflow share: does the lock exist, does the shared memory of the
-- server exist, how many servers have been started, and where is each process.
pub record Workflow : Type 0 where
  pub held : Bool
  pub up : Bool
  pub servers : ℕ
  pub stages : ℕ → Stage

abbrev pub move : ℕ → Stage → Workflow → Workflow
move i stage s = record s { stages = λ j. if j == i then stage else s.stages j }

-- One step of a process. `good` says whether the executable is found and the fork succeeds; where
-- they do not, the lock is released on the way out.
unfoldable pub advance : ℕ → Bool → Workflow → Workflow
advance i good s = elim (s.stages i) [
  | checking ↦ move i (if s.up then finished else opening) s
  | opening ↦ if s.held then move i waiting s else move i holding (record s { held = true })
  | holding ↦
      if good
      then move i starting (record s { servers = suc s.servers })
      else move i finished (record s { held = false })
  | starting ↦ move i finished (record s { held = false })
  | waiting ↦ move i finished s
  | finished ↦ s
]

-- A step of a process; the server making its shared memory; a child whose `execve` has failed: the
-- exception unwinds the child's copy of the lock, and its destructor unlinks the lock.
pub data Action : Type 0 where
  advances : ℕ → Bool → Action
  serves child_throws : Action

unfoldable pub act : Action → Workflow → Workflow
unfolding advance
act (advances i good) s = advance i good s
act serves s = record s { up = true }
act child_throws s = if s.servers == 0 then s else record s { held = false }

unfoldable pub run : List Action → Workflow → Workflow
unfolding act
run [] s = s
run (a ∷ actions) s = run actions (act a s)

-- No process has begun.
abbrev pub initial : Workflow
initial = record { held = false; up = false; servers = 0; stages = λ i. checking }

-- No `execve` fails.
abbrev pub all_executed : List Action → Bool
all_executed [] = true
all_executed (advances i good ∷ actions) = all_executed actions
all_executed (serves ∷ actions) = all_executed actions
all_executed (child_throws ∷ actions) = false
