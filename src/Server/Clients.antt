-- ===== src/Server/Clients.antt =====
-- The client side of CAPIO over any calls of `libcapio_init` and `libcapio_teardown`
-- (include/_libcapio_impl.hpp, lines 165-245).
use py_capio.Base.{
  Bool, ◌≡◌, refl, sym, ap, true, false, not, ◌&&◌, List, [], ◌∷◌, negsuc, if_elim, arith, ◌∙◌,
  is_positive, if◌then◌else◌,
}
use py_capio.Server.{
  log, client_initialized, History, Host, Process, Run, returned, threw, became, Environ, Config,
  bootstrap_capio_server, attach, libcapio_init, prepare, libcapio_teardown,
}
use py_capio.Server.Printing.{greet_keeps, prepare_keeps}
use py_capio.Server.Aside.{client_events, Aside, bootstrap-Aside}
use py_capio.Server.Calls.{Call, perform, perform_keeps}

-- The last event was a start.
abbrev pub is_client : History → Bool
is_client [] = false
is_client (client_initialized ∷ h) = true
is_client (_ ∷ h) = false

-- Starts and ends by turns, a start first.
abbrev pub alternates : History → Bool
alternates [] = true
alternates (client_initialized ∷ h) = not (is_client h) && alternates h
alternates (_ ∷ h) = is_client h && alternates h

record Paired (p : Process) : Type 0 where
  by_turns : alternates (client_events p.history) ≡ true
  known : is_client (client_events p.history) ≡ p.libcapio_initialized

-- The client side has been started.
abbrev Begun : Process → Type 0
Begun p =
    (alternates (client_events p.history) ≡ true) × (is_client (client_events p.history) ≡ true)

module _ (H : Host) where
  Aside-Paired : (p : Process) (r : Run × Process) → Paired p → Aside H p r → Paired r.1
  Aside-Paired p (run, q) v (events, same) = record {
    by_turns = ap alternates events ∙ v.by_turns;
    known = ap is_client events ∙ (v.known ∙ sym same);
  }

  attach-Paired :
      (r : Run × Process)
      → Paired r.1
      → r.1.libcapio_initialized ≡ false
      → Paired (attach H r.0 r.1).1
  unfolding attach
  attach-Paired (returned z, q) v off =
      let id = if is_positive z then z else q.capio_server_thread_id in
      let (turns, last) =
        greet_keeps Begun (λ x p w. w) (λ p w. w) H
          (log client_initialized (record q { capio_server_thread_id = id }))
          (ground (arith, v.by_turns, v.known, off)) in
      record { by_turns = turns; known = last }
  attach-Paired (threw e, q) v off = v
  attach-Paired (became image, q) v off = v

  libcapio_init-Paired : (c : Config) (p : Process) → Paired p → Paired (libcapio_init H c p).1
  unfolding libcapio_init
  libcapio_init-Paired c p v =
      let p' = prepare H c p in
      let v' =
        prepare_keeps Paired (λ x q w. record { by_turns = w.by_turns; known = w.known }) H
          (λ x q w. record { by_turns = w.by_turns; known = w.known })
          (λ env q w. record { by_turns = w.by_turns; known = w.known }) c p v in
      let aside = bootstrap-Aside H c p' in
      if_elim (λ (r : Run × Process). Paired r.1) p'.libcapio_initialized (λ _. v')
        (λ off.
          attach-Paired (bootstrap_capio_server H c p')
            (Aside-Paired p' (bootstrap_capio_server H c p') v' aside) (aside.1 ∙ off))

  libcapio_teardown-Paired : (b : Bool) (p : Process) → Paired p → Paired (libcapio_teardown b p)
  unfolding libcapio_teardown
  libcapio_teardown-Paired b p v = record {
    by_turns = ground (arith, v.by_turns, v.known);
    known = ground (arith, v.known);
  }

  -- A process that starts as no client, and makes any calls of `libcapio_init` and
  -- `libcapio_teardown` in any order, starts the client side and leaves it by turns, a start first,
  -- and `libcapio_initialized` says whether it was started last.
  pub perform-alternates :
      (calls : List Call) (environ : Environ)
      → let q = perform H calls (record {
        libcapio_initialized = false;
        capio_server_thread_id = negsuc 0;
        libcapio_preamble = [];
        environ = environ;
        history = [];
      }) in
        (alternates (client_events q.history) ≡ true)
        × (is_client (client_events q.history) ≡ q.libcapio_initialized)
  perform-alternates calls environ =
      let v =
        perform_keeps H Paired libcapio_init-Paired libcapio_teardown-Paired calls _
          (record { by_turns = refl; known = refl }) in
      (v.by_turns, v.known)
