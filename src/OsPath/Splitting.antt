-- ===== src/OsPath/Splitting.antt =====
-- `split` of src/OsPath.cpp, and `join` of what it gives.
use py_capio.Base.{
  ◌≡◌, ◌⊎◌, refl, sym, subst, ◌∙◌, Bytes, Bool-cases, inl, inr, true, false, [], ◌∷◌, is_empty,
  arith, if◌then◌else◌,
}
use py_capio.FsPath.{
  slash, contains, filename, before_filename, strip_slashes, is_absolute, parent_path,
}
use py_capio.FsPath.Laws.{
  contains-filename, filename_no_slash, strip_slashes-filename, is_empty-filename,
  before_filename_none,
}
use py_capio.FsPath.Normal.{pieces, walk}
use py_capio.OsPath.{isabs, split, join}
use py_capio.OsPath.Paths.{join-nil_left, join-nil_right, isabs-join}
use py_capio.OsPath.Joining.{nowhere, destination-join}
use py_capio.OsPath.Normal.{destination}
use py_capio.OsPath.Parents.{Leads, parent_of, parent_path-parent_of, parent_path-Leads}

filename-slashes : (p : Bytes) → is_empty (strip_slashes p) ≡ true → filename p ≡ []
unfolding filename
filename-slashes [] none = refl
filename-slashes (c ∷ p) none =
    ground
      (arith, strip_slashes-filename (c ∷ p), is_empty-filename (c ∷ p), nil (filename (c ∷ p)))
  where
    nil : (f : Bytes) → is_empty f ≡ true → f ≡ []
    nil [] h = refl
    nil (d ∷ f) h = cc

-- A path of slashes alone, and one without any.
split_slashes : (p : Bytes) → is_empty (strip_slashes p) ≡ true → split p ≡ (p, [])
unfolding split parent_path
split_slashes p none = ground (arith, filename-slashes p none)

split_bare : (p : Bytes) → contains slash p ≡ false → split p ≡ ([], p)
unfolding split parent_path strip_slashes filename
split_bare [] h = refl
split_bare (c ∷ p) h = ground (arith, before_filename_none (c ∷ p) h, filename_no_slash (c ∷ p) h)

-- What is stripped ends in no slash.
strip_slashes-last :
    (p : Bytes) → is_empty (filename (strip_slashes p)) ≡ is_empty (strip_slashes p)
unfolding strip_slashes filename
strip_slashes-last [] = refl
strip_slashes-last (c ∷ p) =
    ground (arith, strip_slashes-last p, filename_no_slash (strip_slashes p))

-- The parts lead where the path does.
Same : Bytes → Bytes → Type 0
Same q p = (destination q ≡ destination p) × (isabs q ≡ isabs p)

is_absolute-plain : (f : Bytes) → contains slash f ≡ false → is_absolute f ≡ false
unfolding is_absolute
is_absolute-plain [] h = refl
is_absolute-plain (c ∷ f) h = ground arith

join-Same :
    (parent f p : Bytes) → contains slash f ≡ false → Leads parent f p → Same (join parent f) p
unfolding Leads Same isabs
join-Same parent [] p plain (named, same, led) =
    rw (join-nil_right parent) (sym (nowhere (is_absolute p) (destination parent)) ∙ led, same)
join-Same parent (c ∷ f) p plain (named, same, led) =
    let relative = is_absolute-plain (c ∷ f) plain in
    (
      destination-join parent (c ∷ f) named refl
          ∙ (λ i.
              if relative i
              then destination (c ∷ f)
              else walk (same i) (destination parent) (pieces (c ∷ f)))
          ∙ led,
      isabs-join parent (c ∷ f) ∙ ground (arith, relative, same),
    )

-- The first part ends in a slash only if it is slashes alone.
Trimmed : Bytes → Type 0
Trimmed q = (is_empty (filename q) ≡ false) ⊎ (strip_slashes q ≡ [])

parent_of-Trimmed : (q : Bytes) → Trimmed (parent_of (strip_slashes q))
unfolding Trimmed strip_slashes
parent_of-Trimmed q = elim (Bool-cases (is_empty (strip_slashes q))) [
  | inl y ↦ rw y (inr refl)
  | inr n ↦ rw n (inl (strip_slashes-last q ∙ n))
]

-- What `split` gives of a path.
Parts : Bytes → Bytes × Bytes → Type 0
Parts p (head, name) = Same (join head name) p × (contains slash name ≡ false) × Trimmed head

split_slashes-Parts : (p : Bytes) → is_empty (strip_slashes p) ≡ true → Parts p (p, [])
unfolding Parts Same Trimmed
split_slashes-Parts p none =
    rw (join-nil_right p) ((refl, refl), refl, inr (nil (strip_slashes p) none))
  where
    nil : (f : Bytes) → is_empty f ≡ true → f ≡ []
    nil [] h = refl
    nil (d ∷ f) h = cc

split_named-Parts :
    (p : Bytes)
    → contains slash p ≡ true
    → is_empty (strip_slashes p) ≡ false
    → Parts p (parent_path p, filename p)
unfolding Parts
split_named-Parts p has named = (
  join-Same (parent_path p) (filename p) p (contains-filename p) (parent_path-Leads p has named),
  contains-filename p,
  subst Trimmed (sym (parent_path-parent_of p has named)) (parent_of-Trimmed (before_filename p)),
)

split_bare-Parts : (p : Bytes) → contains slash p ≡ false → Parts p ([], p)
unfolding Parts Same Trimmed strip_slashes
split_bare-Parts p bare = rw (join-nil_left p) ((refl, refl), bare, inr refl)

split-Parts : (p : Bytes) → Parts p (split p)
unfolding split
split-Parts p = elim (Bool-cases (contains slash p)) [
  | inl has ↦ elim (Bool-cases (is_empty (strip_slashes p))) [
    | inl none ↦ subst (Parts p) (sym (split_slashes p none)) (split_slashes-Parts p none)
    | inr named ↦ split_named-Parts p has named
  ]
  | inr bare ↦ subst (Parts p) (sym (split_bare p bare)) (split_bare-Parts p bare)
]

-- For every path, `join` of the two parts that `split` gives leads where the path does, walked by
-- its text alone, and is absolute exactly when the path is; the second part holds no slash, and the
-- first ends in one only if it is slashes alone.
pub join-split :
    (p : Bytes)
    → let (head, name) = split p in
      (destination (join head name) ≡ destination p)
      × (isabs (join head name) ≡ isabs p)
      × (contains slash name ≡ false)
      × ((is_empty (filename head) ≡ false) ⊎ (strip_slashes head ≡ []))
unfolding Parts Same Trimmed
join-split p = let ((led, rooted), plain, trimmed) = split-Parts p in (led, rooted, plain, trimmed)
