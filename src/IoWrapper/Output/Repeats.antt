-- ===== src/IoWrapper/Output/Repeats.antt =====
-- `IOWrapper::close` again and again, and `seek` (include/IOWrapper.hpp).
use py_capio.Base.{ℕ, zero, suc, ◌≡◌, refl, ap, ◌∙◌, ℤ, true, false, some, take, drop, arith, find}
use py_capio.Posix.{Capio, libcapio_close}
use py_capio.IoWrapper.{IoWrapper, IoMode, wrap, readline_loop, readline}
use py_capio.IoWrapper.Output.{seek, close, flush, destroy}

module _ (K : Capio) where
  -- `close` again and again, as `__exit__`, `close` and the destructor may call it.
  pub close_times : ℕ → IoWrapper → K.World → IoWrapper × K.World
  close_times zero self w = (self, w)
  close_times (suc n) self w = let (self', w') = close K self w in close_times n self' w'

  close_times_closed :
      (n : ℕ) (self : IoWrapper) (w : K.World)
      → self.closed ≡ true
      → close_times n self w ≡ (self, w)
  unfolding close_times close
  close_times_closed zero self w h = refl
  close_times_closed (suc n) self w h =
      rw (h, close) (close_times_closed n (record self { closed = true }) w refl)

  close-open :
      (self : IoWrapper) (w : K.World)
      → self.closed ≡ false
      → close K self w
        ≡ (record self { closed = true }, (libcapio_close K self.file_descriptor w).1)
  unfolding close
  close-open self w h = ground arith

  -- The descriptor of an open wrapper is closed once, by the first `close`, however many follow;
  -- the destructor behind them only flushes the caches.
  pub close_once :
      (n : ℕ) (self : IoWrapper) (w : K.World)
      → self.closed ≡ false
      → let closed = close_times (suc n) self w in
        (closed ≡ (record self { closed = true }, (libcapio_close K self.file_descriptor w).1))
        × (destroy K closed.0 closed.1 ≡ flush K (libcapio_close K self.file_descriptor w).1)
  unfolding close_times close destroy
  close_once n self w h =
      let e : close_times (suc n) self w
          ≡ (record self { closed = true }, (libcapio_close K self.file_descriptor w).1) =
        ap (λ (p : IoWrapper × K.World). close_times n p.0 p.1) (close-open self w h)
        ∙ close_times_closed n (record self { closed = true })
            (libcapio_close K self.file_descriptor w).1 refl in
      (e, ap (λ (p : IoWrapper × K.World). destroy K p.0 p.1) e)

  -- Where a whole line is buffered, `readline` behind a `seek` returns that line, wherever the
  -- descriptor now stands.
  pub seek_stale :
      (fuel : ℕ) (mode : IoMode) (self : IoWrapper) (offset : ℤ) (whence : ℕ) (w : K.World) (nl : ℕ)
      → find 10 self.buffer ≡ some nl
      → let w' = (seek K self offset whence w).1 in
        readline K (suc fuel) mode self w'
        ≡ some (
          wrap mode (take (suc nl) self.buffer),
          record self { buffer = drop (suc nl) self.buffer },
          w',
        )
  unfolding readline readline_loop
  seek_stale fuel mode self offset whence w nl e = rw (e, readline, readline_loop)
