-- ===== src/IoWrapper/Keeping.antt =====
-- What the reading methods of `IOWrapper` (include/IOWrapper.hpp) leave as it was.
use py_capio.Base.{
  replicate, ltb, add_size, length, overwrite, resize, take, to_size, stop_iteration, length_error,
  filesystem_error, logic_error, py_capio_exception, if_elim, Option-cases, is_empty, ◌++◌, find, ℕ,
  zero, suc, ◌≡◌, refl, ◌∙◌, ℤ, pos, negsuc, eq_ℤ, is_positive, Bytes, inl, inr, Option, none, some,
  List, [], ◌∷◌, arith, Outcome, ok, raised, undefined, if◌then◌else◌,
}
use py_capio.Posix.{Capio, libcapio_read}
use py_capio.IoWrapper.{
  literal_size, wrap_outcome, received, count, newline, IoMode, ReturnType, IoWrapper, read,
  readline, readlines, next, readline_loop, readline_raw, readlines_loop, read_all_loop, read_sized,
  read_into,
}

-- A view of the world that no read changes.
pub record KeptByReads {ℓ} (K : Capio) {A : Type ℓ} (observed : K.World → A) : Type ℓ where
  pub reads : (fd : ℤ) (size : ℕ) (w : K.World) → observed (K.read_handler fd size w).1 ≡ observed w
  pub glibc_reads :
      (fd : ℤ) (size : ℕ) (w : K.World) → observed (K.glibc_read fd size w).1 ≡ observed w

module _ (K : Capio) {B : Type 0} (observed : K.World → B) (C : KeptByReads K observed) where
  read-observed :
      (fd : ℤ) (size : ℕ) (w : K.World) → observed (libcapio_read K fd size w).1 ≡ observed w
  unfolding libcapio_read
  read-observed fd size w =
      ground (arith, C.reads fd size w, C.glibc_reads fd size (K.read_handler fd size w).1)

  -- A method that may end with this leaves the descriptor as it was.
  abbrev pub Keeps {ℓ} :
      {A : Type ℓ} → IoWrapper → K.World → Option (A × IoWrapper × K.World) → Type 0
  Keeps self w none = Unit
  Keeps self w (some (r, self', w')) = (self'.closed ≡ self.closed) × (observed w' ≡ observed w)

  -- What a later state keeps.
  Keeps-later {ℓ} :
      {A : Type ℓ} (self self' : IoWrapper) (w w' : K.World) (r : Option (A × IoWrapper × K.World))
      → self'.closed ≡ self.closed
      → observed w' ≡ observed w
      → Keeps self' w' r
      → Keeps self w r
  Keeps-later self self' w w' none e h k = tt
  Keeps-later self self' w w' (some (r, self'', w'')) e h (a, b) = (a ∙ e, b ∙ h)

  readline_loop-Keeps :
      (fuel : ℕ) (out : Bytes) (self : IoWrapper) (w : K.World)
      → Keeps self w (readline_loop K fuel out self w)
  unfolding readline_loop
  readline_loop-Keeps zero out self w = tt
  readline_loop-Keeps (suc fuel) out self w =
      let (t, w') = libcapio_read K self.file_descriptor self.chunk_size w in
      let b = received (count t.result) self.chunk_size t.stored in
      let out' = if is_empty self.buffer then out else out ++ self.buffer in
      elim (Option-cases (find newline self.buffer)) [
        | inr (nl, e) ↦ rw (e, readline_loop) (refl, refl)
        | inl e ↦
            let same = read-observed self.file_descriptor self.chunk_size w in
            let more = readline_loop-Keeps fuel out' (record self { buffer = b }) w' in
            rw (e, readline_loop)
              (if_elim (Keeps self w) (is_positive t.result)
                (λ _.
                  Keeps-later self (record self { buffer = b }) w w'
                    (readline_loop K fuel out' (record self { buffer = b }) w') refl same more)
                (λ _. (refl, same)))
      ]

  pub readline-Keeps :
      (fuel : ℕ) (mode : IoMode) (self : IoWrapper) (w : K.World)
      → Keeps self w (readline K fuel mode self w)
  unfolding readline
  readline-Keeps fuel mode self w = ground (arith, readline_loop-Keeps fuel [] self w)

  pub next-Keeps :
      (fuel : ℕ) (mode : IoMode) (self : IoWrapper) (w : K.World)
      → Keeps self w (next K fuel mode self w)
  unfolding next readline_raw
  next-Keeps fuel mode self w = ground (arith, readline_loop-Keeps fuel [] self w)

  pub readlines_loop-Keeps :
      (rounds fuel : ℕ) (mode : IoMode) (found : List ReturnType) (self : IoWrapper) (w : K.World)
      → Keeps self w (readlines_loop K rounds fuel mode found self w)
  unfolding readlines_loop
  readlines_loop-Keeps zero fuel mode found self w = tt
  readlines_loop-Keeps (suc rounds) fuel mode found self w =
      go (readlines_loop-Keeps rounds fuel mode) (next K fuel mode self w)
        (next-Keeps fuel mode self w)
    where
      go :
          ((found : List ReturnType) (self : IoWrapper) (w : K.World)
            → Keeps self w (readlines_loop K rounds fuel mode found self w))
          → (r : Option (Outcome ReturnType × IoWrapper × K.World)) → Keeps self w r
          → Keeps self w (elim r [
            | none ↦ none
            | some (ok line, self', w') ↦
                readlines_loop K rounds fuel mode (found ++ (line ∷ [])) self' w'
            | some (raised stop_iteration, self', w') ↦ some (ok found, self', w')
            | some (raised e, self', w') ↦ some (raised e, self', w')
            | some (undefined, self', w') ↦ some (undefined, self', w')
          ])
      go again none k = tt
      go again (some (ok line, self', w')) (a, b) =
          Keeps-later self self' w w'
            (readlines_loop K rounds fuel mode (found ++ (line ∷ [])) self' w') a b
            (again (found ++ (line ∷ [])) self' w')
      go again (some (raised stop_iteration, self', w')) k = k
      go again (some (raised length_error, self', w')) k = k
      go again (some (raised filesystem_error, self', w')) k = k
      go again (some (raised logic_error, self', w')) k = k
      go again (some (raised (py_capio_exception m), self', w')) k = k
      go again (some (undefined, self', w')) k = k

  pub readlines-Keeps :
      (rounds fuel : ℕ) (mode : IoMode) (self : IoWrapper) (w : K.World)
      → Keeps self w (readlines K rounds fuel mode self w)
  unfolding readlines
  readlines-Keeps rounds fuel mode self w = readlines_loop-Keeps rounds fuel mode [] self w

  -- The same of the loop of `read()`, which has no wrapper in its state.
  abbrev Same {ℓ} : {A : Type ℓ} → K.World → Option (A × ℕ × K.World) → Type 0
  Same w none = Unit
  Same w (some (a, n, w')) = observed w' ≡ observed w

  read_all_loop-Same :
      (fuel : ℕ) (self : IoWrapper) (tmp out : Bytes) (size : ℕ) (w : K.World)
      → Same w (read_all_loop K fuel self tmp out size w)
  unfolding read_all_loop
  read_all_loop-Same zero self tmp out size w = tt
  read_all_loop-Same (suc fuel) self tmp out size w =
      let (t, w') = libcapio_read K self.file_descriptor self.chunk_size w in
      let tmp' = overwrite t.stored tmp in
      let out' = out ++ take (to_size t.result) tmp' in
      let same = read-observed self.file_descriptor self.chunk_size w in
      if_elim (Same w) (is_positive t.result)
        (λ _.
          Same-later w w' (read_all_loop K fuel self tmp' out' (add_size size t.result) w') same
            (read_all_loop-Same fuel self tmp' out' (add_size size t.result) w'))
        (λ _. same)
    where
      Same-later :
          (w w' : K.World) (r : Option (Bytes × ℕ × K.World))
          → observed w' ≡ observed w
          → Same w' r
          → Same w r
      Same-later w w' none h k = tt
      Same-later w w' (some (a, n, w'')) h k = k ∙ h

  read_into-Keeps :
      (mode : IoMode) (size read_size : ℕ) (self : IoWrapper) (w : K.World) (r : Outcome Bytes)
      → let (r, self', w') = read_into K mode size read_size self w r in
        (self'.closed ≡ self.closed) × (observed w' ≡ observed w)
  unfolding read_into
  read_into-Keeps mode size read_size self w (ok buf) =
      (refl, read-observed self.file_descriptor size w)
  read_into-Keeps mode size read_size self w (raised e) = (refl, refl)
  read_into-Keeps mode size read_size self w undefined = (refl, refl)

  pub read-Keeps :
      (fuel : ℕ) (mode : IoMode) (size : ℤ) (self : IoWrapper) (w : K.World)
      → Keeps self w (read K fuel mode size self w)
  unfolding read read_sized
  read-Keeps fuel mode size self w =
      if_elim (Keeps self w) (eq_ℤ size (pos 0)) (λ _. (refl, refl))
        (λ _.
          if_elim (Keeps self w) (eq_ℤ size (negsuc 0))
            (λ _.
              if_elim (Keeps self w) (ltb literal_size self.chunk_size) (λ _. (refl, refl))
                (λ _.
                  to_end
                    (read_all_loop K fuel self (replicate self.chunk_size 0) self.buffer
                      (length self.buffer) w)
                    (read_all_loop-Same fuel self (replicate self.chunk_size 0) self.buffer
                      (length self.buffer) w)))
            (λ _.
              read_into-Keeps mode (to_size size) (length self.buffer) (record self { buffer = [] })
                w (resize (to_size size) self.buffer)))
    where
      to_end :
          (r : Option (Bytes × ℕ × K.World))
          → Same w r
          → Keeps self w (elim r [
            | none ↦ none
            | some (out_buffer, read_size, w') ↦
                some
                  (wrap_outcome mode (resize read_size out_buffer), record self { buffer = [] }, w')
          ])
      to_end none k = tt
      to_end (some (out, n, w')) k = (refl, k)
