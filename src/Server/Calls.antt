-- ===== src/Server/Calls.antt =====
-- Rows of calls of `libcapio_init` and `libcapio_teardown` (include/_libcapio_impl.hpp).
use py_capio.Base.{Bool, List, [], ◌∷◌}
use py_capio.Server.{
  Host, Process, Run, returned, threw, became, Config, libcapio_init, libcapio_teardown,
}

pub data Call : Type 0 where
  inits : Config → Call
  teardowns : Bool → Call

module _ (H : Host) where
  -- The calls of a process; none is made once it has become the server or has crashed.
  pub perform : List Call → Process → Process
  perform [] p = p
  perform (inits c ∷ calls) p =
      let (run, q) = libcapio_init H c p in
      elim run [ returned z ↦ perform calls q | threw e ↦ perform calls q | became image ↦ q ]
  perform (teardowns b ∷ calls) p = perform calls (libcapio_teardown b p)

  -- Behind a `libcapio_init` the calls go on, or nothing more is called.
  pub perform_inits {ℓ} :
      (P : Process → Type ℓ) (c : Config) (calls : List Call) (p : Process)
      → P (libcapio_init H c p).1
      → P (perform calls (libcapio_init H c p).1)
      → P (perform (inits c ∷ calls) p)
  unfolding perform
  perform_inits P c calls p = go (libcapio_init H c p).0
    where
      go :
          (run : Run)
          → P (libcapio_init H c p).1
          → P (perform calls (libcapio_init H c p).1)
          → P (elim run [
            | returned z ↦ perform calls (libcapio_init H c p).1
            | threw e ↦ perform calls (libcapio_init H c p).1
            | became image ↦ (libcapio_init H c p).1
          ])
      go (returned z) a b = b
      go (threw e) a b = b
      go (became image) a b = a

  -- What both calls keep, any row of them keeps.
  pub perform_keeps {ℓ} :
      (P : Process → Type ℓ)
      → ((c : Config) (p : Process) → P p → P (libcapio_init H c p).1)
      → ((b : Bool) (p : Process) → P p → P (libcapio_teardown b p))
      → (calls : List Call) (p : Process) → P p
      → P (perform calls p)
  unfolding perform
  perform_keeps P init teardown [] p v = v
  perform_keeps P init teardown (inits c ∷ calls) p v =
      let v' = init c p v in
      perform_inits P c calls p v' (perform_keeps P init teardown calls (libcapio_init H c p).1 v')
  perform_keeps P init teardown (teardowns b ∷ calls) p v =
      perform_keeps P init teardown calls (libcapio_teardown b p) (teardown b p v)
