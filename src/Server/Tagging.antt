-- ===== src/Server/Tagging.antt =====
-- `libcapio_preamble` (include/_libcapio_impl.hpp): the lines of a process on the terminal.
use py_capio.Base.{
  ◌⊎◌, inl, inr, ◌≡◌, refl, sym, ap, subst, ◌∙◌, if_elim, Bytes, Bool, ◌&&◌, is_positive,
  if◌then◌else◌, false, List, [], ◌∷◌, ◌++◌, negsuc, some, is_empty,
}
use py_capio.Server.{
  History, Event, printed, client_initialized, Host, Process, Run, returned, threw, became, Environ,
  Config, log, say, preamble_text, set_preamble, bootstrap_capio_server, prepare, attach,
  libcapio_init, libcapio_teardown,
}
use py_capio.Server.Printing.{is_printed, bootstrap_keeps, greet_keeps, prepare_again}
use py_capio.Server.Calls.{Call, inits, perform, perform_keeps, perform_inits}

-- Every line begins with the preamble, but for an empty one.
abbrev pub Tagged : Bytes → History → Type 0
Tagged preamble [] = Unit
Tagged preamble (printed line ∷ h) =
    ((line ≡ []) ⊎ ((text : Bytes) × (line ≡ preamble ++ text))) × Tagged preamble h
Tagged preamble (_ ∷ h) = Tagged preamble h

Tagged-log :
    (preamble : Bytes) (e : Event) (h : History)
    → is_printed e ≡ false
    → Tagged preamble h
    → Tagged preamble (e ∷ h)
Tagged-log preamble (printed line) h silent v = cc
Tagged-log preamble _ h silent v = v

-- The process has this preamble, and all its lines begin with it.
abbrev Tags : Bytes → Process → Type 0
Tags preamble p = (p.libcapio_preamble ≡ preamble) × Tagged preamble p.history

log-Tags :
    (preamble : Bytes) (e : Event) (p : Process)
    → is_printed e ≡ false
    → Tags preamble p
    → Tags preamble (log e p)
log-Tags preamble e p silent (same, v) = (same, Tagged-log preamble e p.history silent v)

say-Tags : (preamble text : Bytes) (p : Process) → Tags preamble p → Tags preamble (say text p)
say-Tags preamble text p (same, v) = (same, (inr (text, ap (λ b. b ++ text) same), v))

libcapio_teardown-Tags :
    (preamble : Bytes) (b : Bool) (p : Process)
    → Tags preamble p
    → Tags preamble (libcapio_teardown b p)
unfolding libcapio_teardown
libcapio_teardown-Tags preamble b p v =
    if_elim (Tags preamble) p.libcapio_initialized
      (λ _. if_elim (Tags preamble) (b && is_positive p.capio_server_thread_id) (λ _. v) (λ _. v))
      (λ _. v)

module _ (H : Host) where
  attach-Tags :
      (preamble : Bytes) (run : Run) (p : Process)
      → Tags preamble p
      → Tags preamble (attach H run p).1
  unfolding attach
  attach-Tags preamble (returned z) p v =
      let id = if is_positive z then z else p.capio_server_thread_id in
      greet_keeps (Tags preamble) (say-Tags preamble) (λ p v. (v.0, (inl refl, v.1))) H
        (log client_initialized (record p { capio_server_thread_id = id })) v
  attach-Tags preamble (threw e) p v = v
  attach-Tags preamble (became image) p v = v

  prepared-Tags :
      (preamble : Bytes) (c : Config) (p : Process)
      → Tags preamble (prepare H c p)
      → Tags preamble (libcapio_init H c p).1
  unfolding libcapio_init
  prepared-Tags preamble c p v =
      let p' = prepare H c p in
      if_elim (λ (r : Run × Process). Tags preamble r.1) p'.libcapio_initialized (λ _. v)
        (λ _.
          attach-Tags preamble (bootstrap_capio_server H c p').0 (bootstrap_capio_server H c p').1
            (bootstrap_keeps (Tags preamble) (log-Tags preamble) (say-Tags preamble) H c p' v))

  libcapio_init-Tags :
      (preamble : Bytes)
      → is_empty preamble ≡ false
      → (c : Config) (p : Process) → Tags preamble p
      → Tags preamble (libcapio_init H c p).1
  libcapio_init-Tags preamble set c p (same, v) =
      prepared-Tags preamble c p
        (subst (Tags preamble) (sym (prepare_again H c p (ap is_empty same ∙ set))) (same, v))

  -- A process that starts with no preamble, and whose host's name is found: through a
  -- `libcapio_init` and any further calls of it and of `libcapio_teardown`, with whatever
  -- arguments, the preamble is the one that the first call makes of the host, its application and
  -- the process, and every line that these functions print themselves begins with it, but for empty
  -- lines; the texts that exceptions print are not among these lines.
  pub perform-Tagged :
      (c : Config) (calls : List Call) (environ : Environ) (host : Bytes)
      → H.gethostname [] ≡ some host
      → let preamble = preamble_text host c.app_name (H.getpid []) in
        let q = perform H (inits c ∷ calls) (record {
          libcapio_initialized = false;
          capio_server_thread_id = negsuc 0;
          libcapio_preamble = [];
          environ = environ;
          history = [];
        }) in
        (q.libcapio_preamble ≡ preamble) × Tagged preamble q.history
  unfolding prepare set_preamble
  perform-Tagged c calls environ host found =
      let preamble = preamble_text host c.app_name (H.getpid []) in
      let first = prepared-Tags preamble c _ (rw found (refl, tt)) in
      perform_inits H (Tags preamble) c calls _ first (
        perform_keeps H (Tags preamble) (libcapio_init-Tags preamble refl)
          (libcapio_teardown-Tags preamble) calls _ first)
