-- ===== src/Server/Race/Counting.antt =====
-- Numbers of processes of a workflow (include/_libcapio_impl.hpp, `bootstrap_capio_server`).
use py_capio.Base.{
  ◌+◌, ℕ, ◌≡◌, refl, ◌≤◌, ◌<◌, zero, suc, Bool, true, List, [], ◌∷◌, ◌&&◌, ltb, arith,
}
use py_capio.Server.Race.{Stage, Workflow, move, Action, advances, serves, child_throws}

-- The weights of the first `n` processes.
unfoldable pub total : (Stage → ℕ) → ℕ → (ℕ → Stage) → ℕ
total weight zero stages = 0
total weight (suc n) stages = weight (stages n) + total weight n stages

-- The processes that take a step are the first `n` ones.
abbrev pub all_below : ℕ → List Action → Bool
all_below n [] = true
all_below n (advances i good ∷ actions) = ltb i n && all_below n actions
all_below n (serves ∷ actions) = all_below n actions
all_below n (child_throws ∷ actions) = all_below n actions

module _ (weight : Stage → ℕ) (i : ℕ) (stage : Stage) where
  total_above :
      (n : ℕ) (s : Workflow)
      → n ≤ i
      → total weight n (move i stage s).stages ≡ total weight n s.stages
  unfolding total
  total_above zero s h = refl
  total_above (suc n) s h = ground (arith, total_above n s)

  -- A process that moves changes its own weight only.
  pub total-move :
      (n : ℕ) (s : Workflow)
      → i < n
      → total weight n (move i stage s).stages + weight (s.stages i)
        ≡ total weight n s.stages + weight stage
  unfolding total
  total-move zero s h = elim h [ ]
  total-move (suc n) s h = ground (arith, total-move n s, total_above n s)

-- A weight of at least that of one process.
pub weight-le-total :
    (weight : Stage → ℕ) (i n : ℕ) (stages : ℕ → Stage)
    → i < n
    → weight (stages i) ≤ total weight n stages
unfolding total
weight-le-total weight i zero stages h = elim h [ ]
weight-le-total weight i (suc n) stages h = ground (arith, weight-le-total weight i n stages)

-- No process has a weight.
pub total_none :
    (weight : Stage → ℕ) (n : ℕ) (stages : ℕ → Stage)
    → ((i : ℕ) → i < n → weight (stages i) ≡ 0)
    → total weight n stages ≡ 0
unfolding total
total_none weight zero stages h = refl
total_none weight (suc n) stages h =
    omega (arith, h n (omega arith), total_none weight n stages (λ i l. h i (omega arith)))
