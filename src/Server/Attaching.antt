-- ===== src/Server/Attaching.antt =====
-- How often `libcapio_init` (include/_libcapio_impl.hpp) makes the process a client of CAPIO.
use py_capio.Base.{
  Bool, ap, sym, ℕ, suc, ◌≡◌, refl, true, false, [], ◌∷◌, if_elim, arith, ◌∙◌, is_positive,
  if◌then◌else◌,
}
use py_capio.Server.{
  log, client_initialized, exit_handled, libcapio_teardown, History, Host, Process, Run, returned,
  threw, became, Config, bootstrap_capio_server, attach, libcapio_init, prepare,
}
use py_capio.Server.Printing.{greet_keeps, prepare_keeps, prepare-libcapio_initialized}
use py_capio.Server.Aside.{client_events, Aside, bootstrap-Aside}

abbrev pub attached : History → ℕ
attached [] = 0
attached (client_initialized ∷ h) = suc (attached h)
attached (_ ∷ h) = attached h

abbrev pub departed : History → ℕ
departed [] = 0
departed (exit_handled ∷ h) = suc (departed h)
departed (_ ∷ h) = departed h

attached-client_events : (h : History) → attached (client_events h) ≡ attached h
attached-client_events [] = refl
attached-client_events (client_initialized ∷ h) = ap suc (attached-client_events h)
attached-client_events (_ ∷ h) = attached-client_events h

departed-client_events : (h : History) → departed (client_events h) ≡ departed h
departed-client_events [] = refl
departed-client_events (exit_handled ∷ h) = ap suc (departed-client_events h)
departed-client_events (_ ∷ h) = departed-client_events h

-- A teardown of a client leaves CAPIO once.
pub libcapio_teardown-departs :
    (teardown_server : Bool) (p : Process)
    → p.libcapio_initialized ≡ true
    → let q = libcapio_teardown teardown_server p in
      (attached q.history ≡ attached p.history)
      × (departed q.history ≡ suc (departed p.history))
      × (q.libcapio_initialized ≡ false)
unfolding libcapio_teardown
libcapio_teardown-departs b p up = ground (arith, up)

module _ (H : Host) where
  -- The start of a server does not touch the client side.
  abbrev Untouched : Process → Run × Process → Type 0
  Untouched p (run, q) =
      (attached q.history ≡ attached p.history)
      × (departed q.history ≡ departed p.history)
      × (q.libcapio_initialized ≡ p.libcapio_initialized)

  Aside-Untouched : (p : Process) (r : Run × Process) → Aside H p r → Untouched p r
  Aside-Untouched p (run, q) (events, same) = (
    sym (attached-client_events q.history)
        ∙ (ap attached events ∙ attached-client_events p.history),
    sym (departed-client_events q.history)
        ∙ (ap departed events ∙ departed-client_events p.history),
    same,
  )

  abbrev Counts : ℕ → ℕ → Process → Type 0
  Counts a d q = (attached q.history ≡ a) × (departed q.history ≡ d)

  -- A call that returns attaches once, and any other not at all.
  abbrev pub Attaches : Process → Run × Process → Type 0
  Attaches p (returned z, q) =
      (attached q.history ≡ suc (attached p.history))
      × (departed q.history ≡ departed p.history)
      × (q.libcapio_initialized ≡ true)
  Attaches p (run, q) =
      (attached q.history ≡ attached p.history)
      × (departed q.history ≡ departed p.history)
      × (q.libcapio_initialized ≡ false)

  attach-Attaches :
      (p : Process) (r : Run × Process)
      → Untouched p r
      → p.libcapio_initialized ≡ false
      → Attaches p (attach H r.0 r.1)
  unfolding attach
  attach-Attaches p (returned z, q) (a, d, b) h =
      let id = if is_positive z then z else q.capio_server_thread_id in
      let (a', d') =
        greet_keeps (Counts (suc (attached p.history)) (departed p.history)) (λ x g v. v) (λ g v. v)
          H (log client_initialized (record q { capio_server_thread_id = id })) (ap suc a, d) in
      (a', d', refl)
  attach-Attaches p (threw e, q) (a, d, b) h = (a, d, b ∙ h)
  attach-Attaches p (became image, q) (a, d, b) h = (a, d, b ∙ h)

  pub libcapio_init-Attaches :
      (c : Config) (p : Process) → p.libcapio_initialized ≡ false → Attaches p (libcapio_init H c p)
  unfolding libcapio_init
  libcapio_init-Attaches c p h =
      let p' = prepare H c p in
      let (a, d) =
        prepare_keeps (Counts (attached p.history) (departed p.history)) (λ x g v. v) H (λ x g v. v)
          (λ env g v. v) c p (refl, refl) in
      let off = prepare-libcapio_initialized H c p ∙ h in
      let (a', d', same) =
        Aside-Untouched p' (bootstrap_capio_server H c p') (bootstrap-Aside H c p') in
      if_elim (Attaches p) p'.libcapio_initialized (λ up. cc)
        (λ _.
          attach-Attaches p (bootstrap_capio_server H c p')
            (a' ∙ a, d' ∙ d, same ∙ prepare-libcapio_initialized H c p) h)
