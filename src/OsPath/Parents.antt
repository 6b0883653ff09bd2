-- ===== src/OsPath/Parents.antt =====
-- Where the parent of a path leads, which `dirname` and `split` of src/OsPath.cpp give.
use py_capio.Base.{
  ◌≡◌, refl, sym, ap, subst, ◌∙◌, Bytes, Bool, Bool-cases, inl, inr, true, false, ◌&&◌, [], ◌∷◌,
  ◌++◌, append_assoc, is_empty, ◌==◌, arith, if◌then◌else◌,
}
use py_capio.FsPath.{
  slash, contains, filename, before_filename, strip_slashes, is_absolute, parent_path,
}
use py_capio.FsPath.Laws.{
  before_filename-append-filename, before_filename-slash, strip_slashes-append_slash,
  contains-before_filename,
}
use py_capio.FsPath.Normal.{pieces, Walk, step, walk, start}
use py_capio.OsPath.Joining.{pieces-append, walk-append}
use py_capio.OsPath.Normal.{destination}

-- A text of slashes only, and the text in front of the slashes at the end.
abbrev IsSlashes : Bytes → Type 0
IsSlashes [] = Unit
IsSlashes (c ∷ u) = (c == slash ≡ true) × IsSlashes u

strip_slashes-IsSlashes : (p : Bytes) → (u : Bytes) × (p ≡ strip_slashes p ++ u) × IsSlashes u
unfolding strip_slashes
strip_slashes-IsSlashes [] = ([], refl, tt)
strip_slashes-IsSlashes (c ∷ p) =
    let (u, e, h) = strip_slashes-IsSlashes p in
    elim (Bool-cases (c == slash && is_empty (strip_slashes p))) [
      | inl y ↦ (c ∷ u, ground (arith, e), (ground arith, h))
      | inr n ↦ (u, ground (arith, e), h)
    ]

-- Slashes in front of a path lead nowhere.
walk-slashes :
    (a : Bool) (s : Walk) (u y : Bytes)
    → IsSlashes u
    → walk a s (pieces (u ++ y)) ≡ walk a s (pieces y)
unfolding pieces walk step
walk-slashes a s [] y h = refl
walk-slashes a s (c ∷ u) y (e, h) = rw e (walk-slashes a s u y h)

-- Nor do more slashes than one between two parts.
walk-between :
    (a : Bool) (s : Walk) (x u y : Bytes)
    → IsSlashes u
    → walk a s (pieces (x ++ (u ++ (slash ∷ y)))) ≡ walk a s (pieces (x ++ (slash ∷ y)))
walk-between a s x [] y h = refl
walk-between a s x (c ∷ u) y (e, h) =
    let one : c ≡ slash = ground arith in
    ap (λ d. walk a s (pieces (x ++ (d ∷ (u ++ (slash ∷ y)))))) one
    ∙ ap (walk a s) (pieces-append x (u ++ (slash ∷ y)))
    ∙ walk-append a s (pieces x) (pieces (u ++ (slash ∷ y)))
    ∙ walk-slashes a (walk a s (pieces x)) u (slash ∷ y) h
    ∙ walk-slashes a (walk a s (pieces x)) (slash ∷ []) y (refl, tt)
    ∙ sym (walk-append a s (pieces x) (pieces y))
    ∙ ap (walk a s) (sym (pieces-append x y))

-- A slash stands in front of the file name, behind what is left without the slashes there.
slashed :
    (p : Bytes)
    → contains slash p ≡ true
    → (u : Bytes) × (p ≡ strip_slashes (before_filename p) ++ (u ++ (slash ∷ filename p)))
      × IsSlashes u
slashed p has = elim (before_filename-slash p) [
  | inl none ↦ absurd (contains-before_filename p has none)
  | inr (h, e) ↦
      let (u, e', s) = strip_slashes-IsSlashes h in
      let head : strip_slashes (before_filename p) ≡ strip_slashes h =
        ap strip_slashes e ∙ strip_slashes-append_slash h in
      (
        u,
        sym (before_filename-append-filename p)
            ∙ ap (λ b. b ++ filename p)
                (e ∙ ap (λ b. b ++ (slash ∷ [])) (e' ∙ ap (λ b. b ++ u) (sym head)))
            ∙ append_assoc (strip_slashes (before_filename p) ++ u) (slash ∷ []) (filename p)
            ∙ append_assoc (strip_slashes (before_filename p)) u (slash ∷ filename p),
        s,
      )
]

is_absolute-slashes : (u y : Bytes) → IsSlashes u → is_absolute (u ++ (slash ∷ y)) ≡ true
unfolding is_absolute
is_absolute-slashes [] y h = refl
is_absolute-slashes (c ∷ u) y (e, h) = e

abbrev pub parent_of : Bytes → Bytes
parent_of head = if is_empty head then slash ∷ [] else head

pub parent_path-parent_of :
    (p : Bytes)
    → contains slash p ≡ true
    → is_empty (strip_slashes p) ≡ false
    → parent_path p ≡ parent_of (strip_slashes (before_filename p))
unfolding parent_path
parent_path-parent_of p has named = ground arith

-- A walk to the parent goes on to the path, along the file name.
unfoldable pub Leads : Bytes → Bytes → Bytes → Type 0
Leads parent f p =
    (is_empty parent ≡ false)
    × (is_absolute parent ≡ is_absolute p)
    × (walk (is_absolute p) (destination parent) (pieces f) ≡ destination p)

parent_of-Leads :
    (head u f : Bytes) → IsSlashes u → Leads (parent_of head) f (head ++ (u ++ (slash ∷ f)))
unfolding Leads walk pieces step is_absolute
parent_of-Leads [] u f h =
    let rooted = is_absolute-slashes u f h in
    let led =
      walk-slashes true start u (slash ∷ f) h ∙ walk-slashes true start (slash ∷ []) f (refl, tt) in
    (
      refl,
      sym rooted,
      ap (λ a. walk a (destination (slash ∷ [])) (pieces f)) rooted
          ∙ sym led
          ∙ ap (λ a. walk a start (pieces (u ++ (slash ∷ f)))) (sym rooted),
    )
parent_of-Leads (c ∷ head) u f h =
    let a = c == slash in
    (
      refl,
      refl,
      sym (
          walk-between a start (c ∷ head) u f h
          ∙ ap (walk a start) (pieces-append (c ∷ head) f)
          ∙ walk-append a start (pieces (c ∷ head)) (pieces f)),
    )

pub parent_path-Leads :
    (p : Bytes)
    → contains slash p ≡ true
    → is_empty (strip_slashes p) ≡ false
    → Leads (parent_path p) (filename p) p
parent_path-Leads p has named =
    let (u, e, h) = slashed p has in
    subst (λ parent. Leads parent (filename p) p) (sym (parent_path-parent_of p has named))
      (subst (Leads (parent_of (strip_slashes (before_filename p))) (filename p)) (sym e)
        (parent_of-Leads (strip_slashes (before_filename p)) u (filename p) h))
