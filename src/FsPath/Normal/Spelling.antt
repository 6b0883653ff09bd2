-- ===== src/FsPath/Normal/Spelling.antt =====
-- The text of a normal form, read back into its pieces, for `normpath` of src/OsPath.cpp.
use py_capio.Base.{
  subst, not, ◌&&◌, ℕ, zero, suc, ◌≡◌, refl, sym, ap, ◌∙◌, Bytes, Bool, true, false, List, [], ◌∷◌,
  is_empty, arith, ◌==◌, if◌then◌else◌,
}
use py_capio.FsPath.{slash, dot, contains, is_absolute}
use py_capio.FsPath.Normal.{pieces, joined, up, Walk, climbs, spill, lead, tail, normal_pieces}
use py_capio.FsPath.Normal.Laws.{IsPlain, ArePlain, Slashless, IsWalked, pieces-joined}

Slashless-spill : (ns rest : List Bytes) → ArePlain ns → Slashless rest → Slashless (spill ns rest)
unfolding spill
Slashless-spill [] rest h t = t
Slashless-spill (n ∷ ns) rest (plain, h) t = Slashless-spill ns (n ∷ rest) h (plain.2, t)

Slashless-climbs : (u : ℕ) (rest : List Bytes) → Slashless rest → Slashless (climbs u rest)
unfolding climbs
Slashless-climbs zero rest t = t
Slashless-climbs (suc u) rest t = (refl, Slashless-climbs u rest t)

Slashless-tail : (absolute : Bool) (s : Walk) (b : Bool) → Slashless (tail absolute s b)
Slashless-tail absolute s b =
    go absolute (s.ups == 0 && is_empty s.names) (b && not (is_empty s.names))
  where
    go :
        (a nowhere slashed : Bool)
        → Slashless
            (if nowhere then (if a then [] else dot ∷ []) ∷ [] else if slashed then [] ∷ [] else [])
    go true true slashed = (refl, tt)
    go false true slashed = (refl, tt)
    go a false true = (refl, tt)
    go a false false = tt

Slashless-normal_pieces :
    (absolute : Bool) (s : Walk) (b : Bool)
    → IsWalked absolute s
    → Slashless (normal_pieces absolute s b)
unfolding normal_pieces
Slashless-normal_pieces absolute s b (plain, z) = led absolute
  where
    inner : Slashless (climbs s.ups (spill s.names (tail absolute s b)))
    inner =
        Slashless-climbs s.ups (spill s.names (tail absolute s b))
          (Slashless-spill s.names (tail absolute s b) plain (Slashless-tail absolute s b))

    led : (a : Bool) → Slashless (lead a (climbs s.ups (spill s.names (tail absolute s b))))
    led true = (refl, inner)
    led false = inner

-- A first piece of a relative path.
abbrev IsFirst : Bytes → Type 0
IsFirst q = (is_empty q ≡ false) × (contains slash q ≡ false)

spill-cons :
    (ns : List Bytes) (n : Bytes) (rest : List Bytes)
    → ArePlain ns
    → IsPlain n
    → (q : Bytes) × (qs : List Bytes) × (spill ns (n ∷ rest) ≡ q ∷ qs) × IsFirst q
unfolding spill
spill-cons [] n rest h (d, u, plain) = (n, rest, refl, (ground (arith, d), plain))
spill-cons (m ∷ ns) n rest (first, h) plain = spill-cons ns m (n ∷ rest) h first

inner-cons :
    (absolute : Bool) (u : ℕ) (ns : List Bytes) (b : Bool)
    → ArePlain ns
    → (q : Bytes) × (qs : List Bytes) × (climbs u
          (spill ns (tail absolute (record { ups = u; names = ns }) b))
        ≡ q ∷ qs)
      × (absolute ≡ false → IsFirst q)
unfolding climbs spill
inner-cons absolute (suc u) ns b h = (
  up,
  climbs u (spill ns (tail absolute (record { ups = suc u; names = ns }) b)),
  refl,
  λ r. (refl, refl),
)
inner-cons absolute zero [] b h =
    (if absolute then [] else dot ∷ [], [], refl, λ r. rw r (refl, refl))
inner-cons absolute zero (n ∷ ns) b (plain, h) =
    let (q, qs, e, first) =
      spill-cons ns n (tail absolute (record { ups = zero; names = n ∷ ns }) b) h plain in
    (q, qs, e, λ r. first)

is_absolute-joined :
    (q : Bytes) (qs : List Bytes)
    → IsFirst q
    → (is_absolute (joined (q ∷ qs)) ≡ false) × (is_empty (joined (q ∷ qs)) ≡ false)
unfolding is_absolute joined
is_absolute-joined [] qs (ne, h) = cc
is_absolute-joined (c ∷ q) [] (ne, h) = (ground (arith, h), refl)
is_absolute-joined (c ∷ q) (r ∷ qs) (ne, h) = (ground (arith, h), refl)

read_back :
    (ps : List Bytes) (q : Bytes) (qs : List Bytes)
    → ps ≡ q ∷ qs
    → Slashless ps
    → pieces (joined ps) ≡ ps
read_back ps q qs e h =
    subst (λ l. pieces (joined l) ≡ l) (sym e) (pieces-joined q qs (subst Slashless e h))

-- The text of a normal form has its pieces again, begins with a slash where it should, and is not
-- empty.
pub spelled :
    (absolute : Bool) (s : Walk) (b : Bool)
    → IsWalked absolute s
    → (pieces (joined (normal_pieces absolute s b)) ≡ normal_pieces absolute s b)
      × (is_absolute (joined (normal_pieces absolute s b)) ≡ absolute)
      × (is_empty (joined (normal_pieces absolute s b)) ≡ false)
unfolding normal_pieces joined is_absolute
spelled true s b k =
    let (q, qs, e, first) = inner-cons true s.ups s.names b k.0 in
    let l = climbs s.ups (spill s.names (tail true s b)) in
    (
      read_back ([] ∷ l) [] (q ∷ qs) (ap (λ l. [] ∷ l) e) (Slashless-normal_pieces true s b k),
      ap (λ l. is_absolute (joined ([] ∷ l))) e,
      ap (λ l. is_empty (joined ([] ∷ l))) e,
    )
spelled false s b k =
    let (q, qs, e, first) = inner-cons false s.ups s.names b k.0 in
    let (relative, ne) = is_absolute-joined q qs (first refl) in
    (
      read_back (climbs s.ups (spill s.names (tail false s b))) q qs e
          (Slashless-normal_pieces false s b k),
      ap (λ l. is_absolute (joined l)) e ∙ relative,
      ap (λ l. is_empty (joined l)) e ∙ ne,
    )
