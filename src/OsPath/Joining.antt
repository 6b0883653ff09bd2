-- ===== src/OsPath/Joining.antt =====
-- Where a path leads that `join` of src/OsPath.cpp gives.
use py_capio.Base.{
  ◌≢◌, ℕ, ◌≡◌, inl, inr, refl, sym, subst, ap, ◌∙◌, Bytes, Bool, true, false, List, [], ◌∷◌, ◌++◌,
  append_assoc, append-nil, is_empty, arith, ◌==◌, Bool-cases, if◌then◌else◌,
}
use py_capio.FsPath.{slash, filename, before_filename, is_absolute, append_path}
use py_capio.FsPath.Laws.{
  before_filename-append-filename, before_filename-slash, is_absolute-append_path,
}
use py_capio.FsPath.Normal.{begin_piece, pieces, Walk, step, walk, start}
use py_capio.OsPath.{isabs, join}
use py_capio.OsPath.Paths.{join-append_path}
use py_capio.OsPath.Normal.{destination}

begin_piece-cons :
    (c : ℕ) (l : List Bytes) → (p : Bytes) × (ps : List Bytes) × (begin_piece c l ≡ p ∷ ps)
begin_piece-cons c [] = (c ∷ [], [], refl)
begin_piece-cons c (p ∷ ps) = (c ∷ p, ps, refl)

pieces-cons : (s : Bytes) → (p : Bytes) × (ps : List Bytes) × (pieces s ≡ p ∷ ps)
unfolding pieces
pieces-cons [] = ([], [], refl)
pieces-cons (c ∷ s) = elim (Bool-cases (c == slash)) [
  | inl h ↦ ([], pieces s, rw h refl)
  | inr h ↦ let (p, ps, e) = begin_piece-cons c (pieces s) in (p, ps, rw h e)
]

begin_piece-append :
    (c : ℕ) (s : Bytes) (qs : List Bytes)
    → begin_piece c (pieces s ++ qs) ≡ begin_piece c (pieces s) ++ qs
begin_piece-append c s qs = let (p, ps, e) = pieces-cons s in rw e refl

pub pieces-append : (p q : Bytes) → pieces (p ++ (slash ∷ q)) ≡ pieces p ++ pieces q
unfolding pieces
pieces-append [] q = refl
pieces-append (c ∷ p) q = elim (Bool-cases (c == slash)) [
  | inl h ↦ rw h (ap (λ l. [] ∷ l) (pieces-append p q))
  | inr h ↦ rw h (ap (begin_piece c) (pieces-append p q) ∙ begin_piece-append c p (pieces q))
]

pub walk-append :
    (absolute : Bool) (s : Walk) (ps qs : List Bytes)
    → walk absolute s (ps ++ qs) ≡ walk absolute (walk absolute s ps) qs
unfolding walk
walk-append absolute s [] qs = refl
walk-append absolute s (p ∷ ps) qs = walk-append absolute (step absolute s p) ps qs

pub nowhere : (absolute : Bool) (s : Walk) → walk absolute s (pieces []) ≡ s
unfolding walk pieces step
nowhere absolute s = refl

-- The empty piece behind a slash at the end leads nowhere.
walk-open :
    (absolute : Bool) (h q : Bytes)
    → let p = h ++ (slash ∷ []) in
      walk absolute start (pieces (p ++ q))
      ≡ walk absolute (walk absolute start (pieces p)) (pieces q)
walk-open absolute h q =
    ap (λ s. walk absolute start (pieces s)) (append_assoc h (slash ∷ []) q)
    ∙ ap (walk absolute start) (pieces-append h q)
    ∙ walk-append absolute start (pieces h) (pieces q)
    ∙ ap (λ s. walk absolute s (pieces q)) (sym kept)
  where
    kept : walk absolute start (pieces (h ++ (slash ∷ []))) ≡ walk absolute start (pieces h)
    kept =
        ap (walk absolute start) (pieces-append h [])
        ∙ walk-append absolute start (pieces h) (pieces [])
        ∙ nowhere absolute (walk absolute start (pieces h))

ends_in_slash :
    (p : Bytes)
    → is_empty (filename p) ≡ true
    → is_empty p ≡ false
    → (h : Bytes) × (p ≡ h ++ (slash ∷ []))
ends_in_slash p none ne =
    let all : p ≡ before_filename p =
      sym (before_filename-append-filename p)
      ∙ ap (λ f. before_filename p ++ f) (nil (filename p) none)
      ∙ append-nil (before_filename p) in
    elim (before_filename-slash p) [
      | inl e ↦ absurd (filled p ne (all ∙ e))
      | inr (h, e) ↦ (h, all ∙ e)
    ]
  where
    nil : (f : Bytes) → is_empty f ≡ true → f ≡ []
    nil [] h = refl
    nil (c ∷ f) h = cc

    filled : (s : Bytes) → is_empty s ≡ false → s ≢ []
    filled s h e = ground (arith, ap is_empty e, h)

walk-append_path :
    (p q : Bytes)
    → is_empty p ≡ false
    → is_absolute q ≡ false
    → walk (is_absolute p) start (pieces (append_path p q))
      ≡ walk (is_absolute p) (destination p) (pieces q)
unfolding append_path
walk-append_path p q ne relative = elim (Bool-cases (is_empty (filename p))) [
  | inl none ↦
      let (h, e) = ends_in_slash p none ne in
      rw (relative, none)
        (subst
          (λ s.
            walk (is_absolute p) start (pieces (s ++ q))
            ≡ walk (is_absolute p) (walk (is_absolute p) start (pieces s)) (pieces q))
          (sym e) (walk-open (is_absolute p) h q))
  | inr named ↦
      rw (relative, named)
        (ap (walk (is_absolute p) start) (pieces-append p q)
          ∙ walk-append (is_absolute p) start (pieces p) (pieces q))
]

replaced : (p q : Bytes) → is_absolute q ≡ true → append_path p q ≡ q
unfolding append_path
replaced p q rooted = rw rooted

-- Where neither path is empty, walked by its text alone, `join` of two paths leads where the second
-- leads if that is absolute, and otherwise where a walk of the second leads from where the first
-- leads.
pub destination-join :
    (p q : Bytes)
    → is_empty p ≡ false
    → is_empty q ≡ false
    → destination (join p q)
      ≡ (if isabs q then destination q else walk (isabs p) (destination p) (pieces q))
unfolding isabs
destination-join p q hp hq = elim (Bool-cases (is_absolute q)) [
  | inl rooted ↦
      ap destination (join-append_path p q hp hq ∙ replaced p q rooted)
      ∙ ap (λ b. if b then destination q else walk (is_absolute p) (destination p) (pieces q))
          (sym rooted)
  | inr relative ↦
      let kept : is_absolute (append_path p q) ≡ is_absolute p =
        is_absolute-append_path p q hp ∙ ground (arith, relative) in
      rw relative (
        ap destination (join-append_path p q hp hq)
        ∙ ap (λ b. walk b start (pieces (append_path p q))) kept
        ∙ walk-append_path p q hp relative)
]
