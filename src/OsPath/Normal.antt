-- ===== src/OsPath/Normal.antt =====
-- `normpath` of src/OsPath.cpp.
use py_capio.Base.{
  List, ◌∷◌, ◌≡◌, refl, sym, ap, ◌∙◌, Bytes, Bool, Bool-cases, inl, inr, true, false, is_empty, ◌⊎◌,
  [],
}
use py_capio.FsPath.{is_absolute, strip_slashes}
use py_capio.FsPath.Normal.{
  Walk, pieces, joined, walk, start, ends_open, normal_pieces, lexically_normal,
}
use py_capio.FsPath.Normal.Laws.{
  IsWalked, Slashless-pieces, walk-IsWalked, walk-normal_pieces, normal_pieces-ends_open,
}
use py_capio.FsPath.Normal.Spelling.{spelled}
use py_capio.OsPath.{isabs, normpath}

-- Where a path leads from where it begins, by its text alone.
abbrev pub destination : Bytes → Walk
destination p = walk (is_absolute p) start (pieces p)

destination-IsWalked : (p : Bytes) → IsWalked (is_absolute p) (destination p)
destination-IsWalked p =
    walk-IsWalked (is_absolute p) start (pieces p) (Slashless-pieces p) (tt, λ a. refl)

normpath_slashes : (p : Bytes) → is_empty (strip_slashes p) ≡ true → normpath p ≡ p
unfolding normpath lexically_normal
normpath_slashes p h = rw h

normpath-joined :
    (p : Bytes)
    → is_empty (strip_slashes p) ≡ false
    → normpath p
      ≡ joined (normal_pieces (is_absolute p) (destination p) (ends_open false (pieces p)))
unfolding normpath lexically_normal
normpath-joined p named = rw named

strip_slashes_none : (s : Bytes) → is_empty s ≡ true → s ≡ []
strip_slashes_none [] h = refl
strip_slashes_none (c ∷ s) h = cc

-- What the text of a normal form is made of: "..", as often as the path leads above its start and
-- never behind a root, then names, none of them empty, a dot or "..".
abbrev pub IsTidied : Bytes → Type 0
IsTidied p =
    (pieces (normpath p) ≡ normal_pieces (isabs p) (destination p) (ends_open false (pieces p)))
    × IsWalked (isabs p) (destination p)

-- The facts on the normal form of a path that is more than slashes.
normpath-IsTidied :
    (p : Bytes)
    → is_empty (strip_slashes p) ≡ false
    → (normpath (normpath p) ≡ normpath p)
      × (isabs (normpath p) ≡ isabs p)
      × (destination (normpath p) ≡ destination p)
      × IsTidied p
unfolding isabs
normpath-IsTidied p named = (
  ap normpath e ∙ again ∙ sym e,
  ap isabs e ∙ rooted,
  ap destination e ∙ led,
  (ap pieces e ∙ spelt, k),
)
  where
    a : Bool
    a = is_absolute p

    s : Walk
    s = destination p

    o : Bool
    o = ends_open false (pieces p)

    ps : List Bytes
    ps = normal_pieces a s o

    k : IsWalked a s
    k = destination-IsWalked p

    e : normpath p ≡ joined ps
    e = normpath-joined p named

    spelt : pieces (joined ps) ≡ ps
    spelt = (spelled a s o k).0

    rooted : is_absolute (joined ps) ≡ a
    rooted = (spelled a s o k).1

    led : destination (joined ps) ≡ s
    led = (λ i. walk (rooted i) start (spelt i)) ∙ walk-normal_pieces a s o k

    again : normpath (joined ps) ≡ joined ps
    again = elim (Bool-cases (is_empty (strip_slashes (joined ps)))) [
      | inl h ↦ normpath_slashes (joined ps) h
      | inr h ↦
          normpath-joined (joined ps) h
          ∙ (λ i. joined (normal_pieces (rooted i) (led i) (ends_open false (spelt i))))
          ∙ ap joined (normal_pieces-ends_open a s o k)
    ]

-- For every path, `normpath` of its normal form changes nothing, the normal form is absolute
-- exactly when the path is, and, walked by its text alone, it leads where the path does: as far up,
-- and then down the same names. A path that is slashes alone, or empty, is its own normal form; of
-- any other the pieces between slashes are an empty one in front if the path is absolute, a ".."
-- for each step above the start, of which an absolute path has none, and the names of the walk,
-- none of which is empty, "." or ".."; where there are names, one empty piece follows if the last
-- piece of the path is empty, a "." or a "..", and where there are neither names nor steps, an
-- empty piece or, for a relative path, a ".".
pub normpath_twice :
    (p : Bytes)
    → (normpath (normpath p) ≡ normpath p)
      × (isabs (normpath p) ≡ isabs p)
      × (destination (normpath p) ≡ destination p)
      × (((strip_slashes p ≡ []) × (normpath p ≡ p)) ⊎ IsTidied p)
normpath_twice p = elim (Bool-cases (is_empty (strip_slashes p))) [
  | inl h ↦
      let e = normpath_slashes p h in
      (ap normpath e, ap isabs e, ap destination e, inl (strip_slashes_none (strip_slashes p) h, e))
  | inr h ↦ let (again, rooted, led, tidy) = normpath-IsTidied p h in (again, rooted, led, inr tidy)
]
