-- ===== src/IoWrapper/Output/Laws.antt =====
-- `IOWrapper::write` and `writelines` (include/IOWrapper.hpp): what they do to a descriptor.
use py_capio.Base.{
  ℕ, ◌≤◌, ◌≡◌, refl, sym, ap, ◌∙◌, ◌⊎◌, inl, inr, ◌≢◌, ℤ, pos, negsuc, eq_ℤ, Bytes, true, List, [],
  ◌∷◌, ◌++◌, append_assoc, append-nil, length, take, drop, take_all, take-append-drop, arith,
  Bool-cases, Outcome, ok, raised, py_capio_exception, write_failed,
}
use py_capio.Posix.{Capio, libcapio_write}
use py_capio.Posix.Laws.{eq_ℤ_refl, eq_ℤ_ne}
use py_capio.IoWrapper.{IoWrapper}
use py_capio.IoWrapper.Lines.{concat}
use py_capio.IoWrapper.Output.{write, writelines}

-- A count that passes the test of `write` is that of the whole text.
all_appended :
    (z : ℤ) (text : Bytes) (n : ℕ)
    → ((z ≡ pos n) ⊎ ((n ≡ 0) × (e : ℕ) × (z ≡ negsuc e)))
    → eq_ℤ z (pos (length text)) ≡ true
    → take n text ≡ text
all_appended z text n counted whole = ground (arith, take_all n text)

module _ (K : Capio) where
  -- A write as write(2) promises it, of a descriptor to which `written` has gone so far: it appends
  -- the first bytes and returns their number, or fails and appends nothing.
  pub record IsWrite (written : K.World → Bytes) (text : Bytes) (w : K.World) (r : ℤ × K.World)
      : Type 0 where
    pub appended : ℕ
    pub within : appended ≤ length text
    pub in_order : written r.1 ≡ written w ++ take appended text
    pub counted : (r.0 ≡ pos appended) ⊎ ((appended ≡ 0) × (e : ℕ) × (r.0 ≡ negsuc e))

  -- Every write is answered by CAPIO's handler, or by glibc after the handler asked to be skipped.
  pub record IsWritable (fd : ℤ) (written : K.World → Bytes) : Type 0 where
    pub served :
        (text : Bytes) (w : K.World)
        → ((K.write_handler fd text w).0 ≢ K.request_skip)
            × IsWrite written text w (K.write_handler fd text w)
          ⊎ (((K.write_handler fd text w).0 ≡ K.request_skip)
              × IsWrite written text w (K.glibc_write fd text (K.write_handler fd text w).1))

  libcapio_write-IsWrite :
      (fd : ℤ) (written : K.World → Bytes)
      → IsWritable fd written
      → (text : Bytes) (w : K.World) → IsWrite written text w (libcapio_write K fd text w)
  unfolding libcapio_write
  libcapio_write-IsWrite fd written W text w = elim (W.served text w) [
    | inl (kept, h) ↦ rw (eq_ℤ_ne (K.write_handler fd text w).0 K.request_skip kept) h
    | inr (e, h) ↦
        let skipped : eq_ℤ (K.write_handler fd text w).0 K.request_skip ≡ true =
          ap (λ r. eq_ℤ r K.request_skip) e ∙ eq_ℤ_refl K.request_skip in
        rw skipped h
  ]

  module _ (written : K.World → Bytes) where
    -- The texts `p` that were appended, and the part `q` that was not: none on success, and on
    -- failure the exception carries what write returned.
    abbrev pub Wrote {ℓ} : {A : Type ℓ} → Bytes → K.World → Outcome A × K.World → Type ℓ
    Wrote {A} text w r =
        (p q : Bytes) × (written r.1 ≡ written w ++ p)
        × (text ≡ p ++ q)
        × ((((a : A) × (r.0 ≡ ok a)) × (q ≡ []))
            ⊎ ((z : ℤ) × (r.0 ≡ raised (py_capio_exception (write_failed z)))))

    pub write-Wrote :
        (self : IoWrapper) (text : Bytes) (w : K.World)
        → IsWritable self.file_descriptor written
        → Wrote text w (write K self text w)
    unfolding write
    write-Wrote self text w W =
        let r = libcapio_write K self.file_descriptor text w in
        let h = libcapio_write-IsWrite self.file_descriptor written W text w in
        elim (Bool-cases (eq_ℤ r.0 (pos (length text)))) [
          | inl whole ↦ rw whole (
            text,
            [],
            h.in_order
                ∙ ap (λ t. written w ++ t) (all_appended r.0 text h.appended h.counted whole),
            sym (append-nil text),
            inl ((r.0, refl), refl),
          )
          | inr short ↦ rw short (
            take h.appended text,
            drop h.appended text,
            h.in_order,
            sym (take-append-drop h.appended text),
            inr (r.0, refl),
          )
        ]

    -- A text that was appended, and what is appended behind it.
    pub Wrote-append :
        {A : Type 0} (text more : Bytes) (w w' : K.World) (r : Outcome A × K.World)
        → written w' ≡ written w ++ text
        → Wrote more w' r
        → Wrote (text ++ more) w r
    Wrote-append text more w w' r first (p, q, grown, parts, how) = (
      text ++ p,
      q,
      grown ∙ ap (λ t. t ++ p) first ∙ append_assoc (written w) text p,
      ap (λ t. text ++ t) parts ∙ sym (append_assoc text p q),
      how,
    )

    -- A failure leaves what is behind it.
    pub Wrote-failed :
        {A : Type 0} (text more p q : Bytes) (w w' : K.World) (z : ℤ)
        → written w' ≡ written w ++ p
        → text ≡ p ++ q
        → Wrote {A = A} (text ++ more) w (raised (py_capio_exception (write_failed z)), w')
    Wrote-failed text more p q w w' z grown parts =
        (p, q ++ more, grown, ap (λ t. t ++ more) parts ∙ append_assoc p q more, inr (z, refl))

    pub all_written :
        (text p q : Bytes) (w w' : K.World)
        → written w' ≡ written w ++ p
        → text ≡ p ++ q
        → q ≡ []
        → written w' ≡ written w ++ text
    all_written text p q w w' grown parts none_left =
        grown
        ∙ ap (λ t. written w ++ t)
            (sym (append-nil p) ∙ ap (λ t. p ++ t) (sym none_left) ∙ sym parts)

    -- On a writable descriptor `writelines` appends the lines one behind the other, all of them
    -- where it returns; otherwise it raises the exception of a failed write, and what it has
    -- appended is a first part of the lines.
    pub writelines-Wrote :
        (self : IoWrapper) (lines : List Bytes) (w : K.World)
        → IsWritable self.file_descriptor written
        → Wrote (concat lines) w (writelines K self lines w)
    unfolding writelines
    writelines-Wrote self [] w W =
        ([], [], sym (append-nil (written w)), refl, inl ((tt, refl), refl))
    writelines-Wrote self (line ∷ lines) w W =
        let (p, q, grown, parts, how) = write-Wrote self line w W in
        elim how [
          | inl ((a, e), none_left) ↦
              let w1 = (write K self line w).1 in
              let first = all_written line p q w w1 grown parts none_left in
              let rest = writelines-Wrote self lines w1 W in
              rw (e, writelines)
                (Wrote-append line (concat lines) w w1 (writelines K self lines w1) first rest)
          | inr (z, e) ↦
              rw (e, writelines)
                (Wrote-failed line (concat lines) p q w (write K self line w).1 z grown parts)
        ]
