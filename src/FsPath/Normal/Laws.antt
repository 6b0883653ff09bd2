-- ===== src/FsPath/Normal/Laws.antt =====
-- Lemmas on the normal form of a path, for `normpath` of src/OsPath.cpp.
use py_capio.Base.{
  ℕ, zero, suc, ◌+◌, ◌≡◌, refl, sym, ap, ◌∙◌, Bytes, Bool, Bool-cases, inl, inr, true, false, ◌&&◌,
  ◌||◌, not, List, [], ◌∷◌, ◌++◌, is_empty, ◌==◌, if◌then◌else◌, arith,
}
use py_capio.FsPath.{slash, dot, contains}
use py_capio.FsPath.Normal.{
  begin_piece, pieces, joined, is_dot, up, is_up, Walk, climb, step, walk, start, ends_open, climbs,
  spill, lead, tail, normal_pieces,
}

-- A name that is no dot and not "..", and holds no slash.
abbrev pub IsPlain : Bytes → Type 0
IsPlain n = (is_dot n ≡ false) × (is_up n ≡ false) × (contains slash n ≡ false)

abbrev pub ArePlain : List Bytes → Type 0
ArePlain [] = Unit
ArePlain (n ∷ ns) = IsPlain n × ArePlain ns

abbrev pub Slashless : List Bytes → Type 0
Slashless [] = Unit
Slashless (p ∷ ps) = (contains slash p ≡ false) × Slashless ps

-- What a walk leads to: an absolute path has nothing above its root.
abbrev pub IsWalked : Bool → Walk → Type 0
IsWalked absolute s = ArePlain s.names × (absolute ≡ true → s.ups ≡ 0)

Slashless-begin_piece :
    (c : ℕ) (ps : List Bytes) → (c == slash) ≡ false → Slashless ps → Slashless (begin_piece c ps)
Slashless-begin_piece c [] h t = (ground arith, tt)
Slashless-begin_piece c (p ∷ ps) h t = (ground (arith, t.0), t.1)

pub Slashless-pieces : (s : Bytes) → Slashless (pieces s)
unfolding pieces
Slashless-pieces [] = (refl, tt)
Slashless-pieces (c ∷ s) = elim (Bool-cases (c == slash)) [
  | inl h ↦ rw h (refl, Slashless-pieces s)
  | inr h ↦ rw h (Slashless-begin_piece c (pieces s) h (Slashless-pieces s))
]

pieces-slash :
    (p : Bytes) (s : Bytes) → contains slash p ≡ false → pieces (p ++ (slash ∷ s)) ≡ p ∷ pieces s
unfolding pieces
pieces-slash [] s h = refl
pieces-slash (c ∷ p) s h = ground (arith, pieces-slash p s)

pieces_plain : (p : Bytes) → contains slash p ≡ false → pieces p ≡ p ∷ []
unfolding pieces
pieces_plain [] h = refl
pieces_plain (c ∷ p) h = ground (arith, pieces_plain p)

pub pieces-joined :
    (p : Bytes) (ps : List Bytes) → Slashless (p ∷ ps) → pieces (joined (p ∷ ps)) ≡ p ∷ ps
unfolding joined
pieces-joined p [] (h, t) = pieces_plain p h
pieces-joined p (q ∷ ps) (h, t) =
    pieces-slash p (joined (q ∷ ps)) h ∙ ap (λ l. p ∷ l) (pieces-joined q ps t)

climb-IsWalked :
    (absolute : Bool) (u : ℕ) (ns : List Bytes)
    → IsWalked absolute (record { ups = u; names = ns })
    → IsWalked absolute (climb absolute u ns)
climb-IsWalked absolute u [] (p, z) = (tt, λ a. rw a (z a))
climb-IsWalked absolute u (n ∷ ns) (p, z) = (p.1, z)

step-IsWalked :
    (absolute : Bool) (s : Walk) (p : Bytes)
    → contains slash p ≡ false
    → IsWalked absolute s
    → IsWalked absolute (step absolute s p)
unfolding step
step-IsWalked absolute s p h k = elim (Bool-cases (is_dot p)) [
  | inl d ↦ rw d k
  | inr d ↦ elim (Bool-cases (is_up p)) [
    | inl u ↦ rw (d, u) (climb-IsWalked absolute s.ups s.names k)
    | inr u ↦ rw (d, u) (((d, u, h), k.0), k.1)
  ]
]

pub walk-IsWalked :
    (absolute : Bool) (s : Walk) (ps : List Bytes)
    → Slashless ps
    → IsWalked absolute s
    → IsWalked absolute (walk absolute s ps)
unfolding walk
walk-IsWalked absolute s [] h k = k
walk-IsWalked absolute s (p ∷ ps) h k =
    walk-IsWalked absolute (step absolute s p) ps h.1 (step-IsWalked absolute s p h.0 k)

-- The walk over the pieces of a normal form.
walk-plain :
    (absolute : Bool) (s : Walk) (n : Bytes)
    → IsPlain n
    → step absolute s n ≡ record s { names = n ∷ s.names }
unfolding step
walk-plain absolute s n (d, u, h) = rw (d, u)

walk-spill :
    (absolute : Bool) (u : ℕ) (ns rest : List Bytes)
    → ArePlain ns
    → walk absolute (record { ups = u; names = [] }) (spill ns rest)
      ≡ walk absolute (record { ups = u; names = ns }) rest
unfolding spill walk
walk-spill absolute u [] rest h = refl
walk-spill absolute u (n ∷ ns) rest (plain, h) =
    walk-spill absolute u ns (n ∷ rest) h
    ∙ ap (λ s. walk absolute s rest) (walk-plain absolute (record { ups = u; names = ns }) n plain)

walk-climbs :
    (u k : ℕ) (rest : List Bytes)
    → walk false (record { ups = k; names = [] }) (climbs u rest)
      ≡ walk false (record { ups = k + u; names = [] }) rest
unfolding climbs walk step
walk-climbs zero k rest =
    ap (λ (m : ℕ). walk false (record { ups = m; names = [] }) rest) (omega arith)
walk-climbs (suc u) k rest =
    walk-climbs u (suc k) rest
    ∙ ap (λ (m : ℕ). walk false (record { ups = m; names = [] }) rest) (omega arith)

walk-tail :
    (absolute : Bool) (t s : Walk) (is_open : Bool) → walk absolute t (tail absolute s is_open) ≡ t
unfolding walk step
walk-tail absolute t s is_open =
    go absolute (s.ups == 0 && is_empty s.names) (is_open && not (is_empty s.names))
  where
    go :
        (a nowhere slashed : Bool)
        → walk a t
            (if nowhere then (if a then [] else dot ∷ []) ∷ [] else if slashed then [] ∷ [] else [])
          ≡ t
    go true true slashed = refl
    go false true slashed = refl
    go a false true = refl
    go a false false = refl

pub walk-normal_pieces :
    (absolute : Bool) (s : Walk) (is_open : Bool)
    → IsWalked absolute s
    → walk absolute start (normal_pieces absolute s is_open) ≡ s
unfolding normal_pieces climbs walk step
walk-normal_pieces true s is_open (plain, z) =
    let rest = tail true s is_open in
    ap (λ u. walk true start (climbs u (spill s.names rest))) (z refl)
    ∙ walk-spill true 0 s.names rest plain
    ∙ walk-tail true (record s { ups = 0 }) s is_open
    ∙ (λ i. record s { ups = sym (z refl) i })
walk-normal_pieces false s is_open (plain, z) =
    let rest = tail false s is_open in
    walk-climbs s.ups 0 (spill s.names rest)
    ∙ ap (λ (u : ℕ). walk false (record { ups = u; names = [] }) (spill s.names rest)) (omega arith)
    ∙ walk-spill false s.ups s.names rest plain
    ∙ walk-tail false s s is_open

-- How its last piece ends
ends_open-spill :
    (b : Bool) (n : Bytes) (ns rest : List Bytes)
    → ends_open b (spill ns (n ∷ rest)) ≡ ends_open (is_dot n || is_up n) rest
unfolding spill ends_open
ends_open-spill b n [] rest = refl
ends_open-spill b n (m ∷ ns) rest = ends_open-spill b m ns (n ∷ rest)

ends_open-climbs :
    (b : Bool) (u : ℕ) (n : Bytes) (ns rest : List Bytes)
    → ends_open b (climbs u (spill ns (n ∷ rest))) ≡ ends_open (is_dot n || is_up n) rest
unfolding climbs ends_open
ends_open-climbs b zero n ns rest = ends_open-spill b n ns rest
ends_open-climbs b (suc u) n ns rest = ends_open-climbs true u n ns rest

tail-nil :
    (absolute : Bool) (u : ℕ) (b b' : Bool)
    → tail absolute (record { ups = u; names = [] }) b
      ≡ tail absolute (record { ups = u; names = [] }) b'
tail-nil absolute u b b' = ground arith

tail-cons :
    (absolute : Bool) (u : ℕ) (n : Bytes) (ns : List Bytes) (b : Bool)
    → tail absolute (record { ups = u; names = n ∷ ns }) b ≡ (if b then [] ∷ [] else [])
tail-cons absolute u n ns b = ground arith

ends_open-normal_pieces :
    (absolute : Bool) (u : ℕ) (n : Bytes) (ns : List Bytes) (b : Bool)
    → IsPlain n
    → ends_open false (normal_pieces absolute (record { ups = u; names = n ∷ ns }) b) ≡ b
unfolding normal_pieces ends_open spill
ends_open-normal_pieces absolute u n ns b (d, up, h) =
    ap (λ t. ends_open false (lead absolute (climbs u (spill (n ∷ ns) t))))
      (tail-cons absolute u n ns b)
    ∙ led absolute
    ∙ last b
  where
    rest : List Bytes
    rest = if b then [] ∷ [] else []

    led :
        (a : Bool)
        → ends_open false (lead a (climbs u (spill ns (n ∷ rest))))
          ≡ ends_open (is_dot n || is_up n) rest
    led true = ends_open-climbs true u n ns rest
    led false = ends_open-climbs false u n ns rest

    last : (c : Bool) → ends_open (is_dot n || is_up n) (if c then [] ∷ [] else []) ≡ c
    last true = refl
    last false = rw (d, up)

pub normal_pieces-ends_open :
    (absolute : Bool) (s : Walk) (b : Bool)
    → IsWalked absolute s
    → normal_pieces absolute s (ends_open false (normal_pieces absolute s b))
      ≡ normal_pieces absolute s b
unfolding normal_pieces
normal_pieces-ends_open absolute s b (plain, z) = go s.ups s.names plain
  where
    go :
        (u : ℕ) (ns : List Bytes)
        → ArePlain ns
        → let t : Walk = record { ups = u; names = ns } in
          normal_pieces absolute t (ends_open false (normal_pieces absolute t b))
          ≡ normal_pieces absolute t b
    go u [] h = ap (λ t. lead absolute (climbs u (spill [] t))) (tail-nil absolute u _ b)
    go u (n ∷ ns) h =
        ap (normal_pieces absolute (record { ups = u; names = n ∷ ns }))
          (ends_open-normal_pieces absolute u n ns b h.0)
