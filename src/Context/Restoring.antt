-- ===== src/Context/Restoring.antt =====
-- What `CapioContext` (pycapio/__init__.py) leaves behind.
use py_capio.Base.{
  length, ◌≡◌, refl, ◌∙◌, Bytes, Bool, true, false, arith, if◌then◌else◌, ok, raised, undefined,
}
use py_capio.Server.{Host, Run, returned, threw, became}
use py_capio.Context.{
  ProxyFunctions, patch_context, Bindings, Interpreter, Settings, Exit, done, replaced, Body, ends,
  raises, rebinds, calls, initialise, silence, patched, wrapper, exec, go_on,
}

-- The function itself does not bind the names; what it calls may.
abbrev pub binds_nothing : {F : Type 0} → Body F → Bool
binds_nothing ends = true
binds_nothing (raises e) = true
binds_nothing (rebinds b rest) = false
binds_nothing (calls o inner rest) = binds_nothing rest

module _ (F : Type 0) (proxies : ProxyFunctions F) (abspath : Bytes → Bytes) (H : Host) where
  initialise-bindings :
      (o : Settings) (s : Interpreter F)
      → (initialise F proxies abspath H o s).1.bindings ≡ s.bindings
  unfolding initialise
  initialise-bindings o s = ground arith

  patched-bindings :
      {R : Type 0} (func : Interpreter F → Exit R × Interpreter F) (run : Run) (s : Interpreter F)
      → (patched F proxies abspath H func (run, s)).1.bindings ≡ s.bindings
  unfolding patched
  patched-bindings func (returned z) s = refl
  patched-bindings func (threw e) s = refl
  patched-bindings func (became image) s = refl

  pub wrapper-bindings :
      {R : Type 0} (o : Settings) (func : Interpreter F → Exit R × Interpreter F)
      (s : Interpreter F)
      → (wrapper F proxies abspath H o func s).1.bindings ≡ s.bindings
  unfolding wrapper silence
  wrapper-bindings o func s =
      let r = initialise F proxies abspath H o (silence F proxies abspath H o s) in
      patched-bindings func r.0 r.1 ∙ initialise-bindings o (silence F proxies abspath H o s)

  go_on-bindings :
      (rest : Interpreter F → Exit (Unit {0}) × Interpreter F) (r : Exit (Unit {0}))
      (s : Interpreter F)
      → (rest s).1.bindings ≡ s.bindings
      → (go_on F proxies abspath H rest (r, s)).1.bindings ≡ s.bindings
  unfolding go_on
  go_on-bindings rest (done (ok u)) s h = h
  go_on-bindings rest (done (raised e)) s h = refl
  go_on-bindings rest (done undefined) s h = refl
  go_on-bindings rest (replaced image) s h = refl

  -- A function that does not bind the patched names itself leaves them bound as they were, whatever
  -- the decorated functions that it calls do: bind the names, raise, or call decorated functions in
  -- turn.
  pub exec-bindings :
      (body : Body F) (s : Interpreter F)
      → binds_nothing body ≡ true
      → (exec F proxies abspath H body s).1.bindings ≡ s.bindings
  unfolding exec
  exec-bindings ends s h = refl
  exec-bindings (raises e) s h = refl
  exec-bindings (rebinds b rest) s h = cc
  exec-bindings (calls o inner rest) s h =
      let w = wrapper F proxies abspath H o (exec F proxies abspath H inner) s in
      go_on-bindings (exec F proxies abspath H rest) w.0 w.1 (exec-bindings rest w.1 h)
      ∙ wrapper-bindings o (exec F proxies abspath H inner) s

  -- What holds behind an initialisation, and whatever the bindings are, holds behind every function.
  module _ (P : Interpreter F → Type 0)
      (rebound : (b : Bindings F) (s : Interpreter F) → P s → P (record s { bindings = b }))
      (initialised : (o : Settings) (s : Interpreter F)
        → P s
        → P (initialise F proxies abspath H o (silence F proxies abspath H o s)).1) where
    patched-keeps :
        (func : Interpreter F → Exit (Unit {0}) × Interpreter F) (run : Run) (s : Interpreter F)
        → P s
        → P (func (patch_context proxies s)).1
        → P (patched F proxies abspath H func (run, s)).1
    unfolding patched
    patched-keeps func (returned z) s h k = rebound s.bindings (func (patch_context proxies s)).1 k
    patched-keeps func (threw e) s h k = h
    patched-keeps func (became image) s h k = h

    go_on-keeps :
        (rest : Interpreter F → Exit (Unit {0}) × Interpreter F) (r : Exit (Unit {0}))
        (s : Interpreter F)
        → P s
        → P (rest s).1
        → P (go_on F proxies abspath H rest (r, s)).1
    unfolding go_on
    go_on-keeps rest (done (ok u)) s h k = k
    go_on-keeps rest (done (raised e)) s h k = h
    go_on-keeps rest (done undefined) s h k = h
    go_on-keeps rest (replaced image) s h k = h

    pub exec-keeps :
        (body : Body F) (s : Interpreter F) → P s → P (exec F proxies abspath H body s).1
    unfolding exec wrapper
    exec-keeps ends s h = h
    exec-keeps (raises e) s h = h
    exec-keeps (rebinds b rest) s h = exec-keeps rest (record s { bindings = b }) (rebound b s h)
    exec-keeps (calls o inner rest) s h =
        let r = initialise F proxies abspath H o (silence F proxies abspath H o s) in
        let begun = initialised o s h in
        let w = wrapper F proxies abspath H o (exec F proxies abspath H inner) s in
        let called = patched-keeps (exec F proxies abspath H inner) r.0 r.1 begun (
          exec-keeps inner (patch_context proxies r.1)
            (rebound (patch_context proxies r.1).bindings r.1 begun)) in
        go_on-keeps (exec F proxies abspath H rest) w.0 w.1 called (exec-keeps rest w.1 called)

  -- The teardown is registered once, or not at all.
  abbrev Registered : Interpreter F → Type 0
  Registered s = length s.at_exit ≡ (if s.py_capio_initialized then 1 else 0)

  initialise-Registered :
      (o : Settings) (s : Interpreter F)
      → Registered s
      → Registered (initialise F proxies abspath H o (silence F proxies abspath H o s)).1
  unfolding initialise silence
  initialise-Registered o s h = ground arith

  pub exec-registered :
      (body : Body F) (s : Interpreter F)
      → length s.at_exit ≡ (if s.py_capio_initialized then 1 else 0)
      → let s' = (exec F proxies abspath H body s).1 in
        length s'.at_exit ≡ (if s'.py_capio_initialized then 1 else 0)
  exec-registered = exec-keeps Registered (λ b s h. h) initialise-Registered
