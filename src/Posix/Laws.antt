-- ===== src/Posix/Laws.antt =====
-- Descriptors as the wrappers of include/_libcapio_impl.hpp find them: served by CAPIO or by glibc.
use py_capio.Base.{
  ℕ, zero, suc, ◌≤◌, ◌<◌, ◌≡◌, refl, sym, ap, ◌∙◌, ◌⊎◌, inl, inr, ◌≢◌, ℤ, pos, eq_ℤ, is_positive,
  Bytes, [], ◌++◌, length, length-append, length_zero, arith, true, false,
}
use py_capio.Posix.{Capio, Transfer, libcapio_read}

pub eq_ℤ_refl : (a : ℤ) → eq_ℤ a a ≡ true
eq_ℤ_refl a = ground arith

pub eq_ℤ_ne : (a b : ℤ) → a ≢ b → eq_ℤ a b ≡ false
eq_ℤ_ne a b h = ground arith

module _ (K : Capio) where
  -- A read of at most `size` bytes, as read(2) and include/libcapio.hpp promise it, of a descriptor
  -- with the bytes `remaining` before it: it stores the next bytes, fewer than asked perhaps, and
  -- none only at the end of the file.
  pub record IsRead (remaining : K.World → Bytes) (size : ℕ) (w : K.World) (r : Transfer × K.World)
      : Type 0 where
    pub counted : r.0.result ≡ pos (length r.0.stored)
    pub within : length r.0.stored ≤ size
    pub in_order : remaining w ≡ r.0.stored ++ remaining r.1
    pub at_end : r.0.stored ≡ [] → 0 < size → remaining w ≡ []

  -- The descriptor can be read to its end: every read is answered by CAPIO's handler, or by glibc
  -- after the handler has asked to be skipped. The skip code is no count of bytes.
  pub record IsReadable (fd : ℤ) (remaining : K.World → Bytes) : Type 0 where
    pub skip_negative : (n : ℕ) → pos n ≢ K.request_skip
    pub served :
        (size : ℕ) (w : K.World)
        → IsRead remaining size w (K.read_handler fd size w)
          ⊎ (((K.read_handler fd size w).0.result ≡ K.request_skip)
              × IsRead remaining size w (K.glibc_read fd size (K.read_handler fd size w).1))

  -- `libcapio_read` of such a descriptor is such a read.
  pub libcapio_read-IsRead :
      (fd : ℤ) (remaining : K.World → Bytes)
      → IsReadable fd remaining
      → (size : ℕ) (w : K.World) → IsRead remaining size w (libcapio_read K fd size w)
  unfolding libcapio_read
  libcapio_read-IsRead fd remaining R size w = elim (R.served size w) [
    | inl h ↦
        let kept : eq_ℤ (K.read_handler fd size w).0.result K.request_skip ≡ false =
          eq_ℤ_ne _ _ (λ e.
            R.skip_negative (length (K.read_handler fd size w).0.stored) (sym h.counted ∙ e)) in
        rw kept h
    | inr (e, h) ↦
        let skipped : eq_ℤ (K.read_handler fd size w).0.result K.request_skip ≡ true =
          ap (λ r. eq_ℤ r K.request_skip) e ∙ eq_ℤ_refl K.request_skip in
        rw skipped h
  ]

positive : (n : ℕ) → is_positive (pos n) ≡ true → 0 < n
positive zero h = cc
positive (suc n) h = omega arith

not_positive : (n : ℕ) → is_positive (pos n) ≡ false → n ≡ 0
not_positive zero h = refl
not_positive (suc n) h = cc

module _ (K : Capio) (remaining : K.World → Bytes) (size : ℕ) (w : K.World) (r : Transfer × K.World)
    (h : IsRead K remaining size w r) where
  -- A read that gives nothing has met the end of the file.
  pub IsRead-stop :
      0 < size
      → is_positive r.0.result ≡ false
      → (r.0.stored ≡ []) × (remaining w ≡ []) × (remaining r.1 ≡ [])
  IsRead-stop s p =
      let none_stored : r.0.stored ≡ [] =
        length_zero r.0.stored (not_positive _ (rw h.counted at p)) in
      let ended : remaining w ≡ [] = h.at_end none_stored s in
      (none_stored, ended, ap (λ l. l ++ remaining r.1) (sym none_stored) ∙ sym h.in_order ∙ ended)

  -- Any other brings the end nearer.
  pub IsRead-go : is_positive r.0.result ≡ true → length (remaining r.1) < length (remaining w)
  IsRead-go p = omega (
    arith,
    positive _ (rw h.counted at p),
    ap length h.in_order,
    length-append r.0.stored (remaining r.1),
  )
