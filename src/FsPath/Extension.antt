-- ===== src/FsPath/Extension.antt =====
-- Lemmas on the stem and the extension of a file name, for `splitext` of src/OsPath.cpp.
use py_capio.Base.{
  ℕ, zero, suc, ◌≡◌, ◌≢◌, refl, Bytes, false, none, some, inl, inr, ◌⊎◌, [], ◌∷◌, ◌++◌, append-nil,
  take, drop, is_empty, take-append-drop, arith, Option-cases,
}
use py_capio.FsPath.{dot, contains, filename, rfind, extension_start, stem, extension}

-- A file name is its stem and its extension.
pub stem-append-extension : (p : Bytes) → stem p ++ extension p ≡ filename p
unfolding stem extension
stem-append-extension p = elim (Option-cases (extension_start (filename p))) [
  | inl e ↦ rw (e, stem, extension) (append-nil (filename p))
  | inr (i, e) ↦ rw (e, stem, extension) (take-append-drop i (filename p))
]

rfind-none : (c : ℕ) (s : Bytes) → rfind c s ≡ none → contains c s ≡ false
unfolding rfind
rfind-none c [] h = refl
rfind-none c (x ∷ s) h = ground (arith, rfind-none c s)

-- An extension is empty or begins with a dot and has no other.
pub rfind-dot :
    (f : Bytes) (i : ℕ)
    → rfind dot f ≡ some i
    → (e : Bytes) × (drop i f ≡ dot ∷ e) × (contains dot e ≡ false)
unfolding rfind
rfind-dot [] i h = cc
rfind-dot (x ∷ f) zero h = (f, ground (arith, rfind-none dot f), ground (arith, rfind-none dot f))
rfind-dot (x ∷ f) (suc i) h = rfind-dot f i (ground arith)

extension_start-rfind :
    (f : Bytes) (i : ℕ) → extension_start f ≡ some i → (rfind dot f ≡ some i) × (i ≢ 0)
unfolding extension_start
extension_start-rfind f i h = ground arith

is_empty-take : (i : ℕ) (f : Bytes) → i ≢ 0 → is_empty (take i f) ≡ is_empty f
is_empty-take zero f h = absurd (h refl)
is_empty-take (suc i) [] h = refl
is_empty-take (suc i) (c ∷ f) h = refl

pub is_empty-stem : (p : Bytes) → is_empty (stem p) ≡ is_empty (filename p)
unfolding stem
is_empty-stem p = elim (Option-cases (extension_start (filename p))) [
  | inl e ↦ rw (e, stem)
  | inr (i, e) ↦
      rw (e, stem) (is_empty-take i (filename p) (extension_start-rfind (filename p) i e).1)
]

-- An extension that is there is a dot with bytes other than a dot behind it.
pub extension-dot :
    (p : Bytes)
    → (extension p ≡ []) ⊎ ((e : Bytes) × (extension p ≡ dot ∷ e) × (contains dot e ≡ false))
unfolding extension
extension-dot p = elim (Option-cases (extension_start (filename p))) [
  | inl e ↦ rw (e, extension) (inl refl)
  | inr (i, e) ↦
      rw (e, extension) (inr (rfind-dot (filename p) i (extension_start-rfind (filename p) i e).0))
]
