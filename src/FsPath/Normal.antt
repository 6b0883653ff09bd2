-- ===== src/FsPath/Normal.antt =====
-- `p.lexically_normal()` of `std::filesystem::path`, which `normpath` of src/OsPath.cpp calls: the
-- normal form of a path as [fs.path.generic] of the C++ standard says it, by a walk over its pieces.
pub mod Laws
pub mod Spelling
use py_capio.Base.{
  ℕ, zero, suc, Bytes, Bool, true, false, ◌&&◌, ◌||◌, not, List, [], ◌∷◌, ◌++◌, is_empty, bytes_eq,
  ◌==◌, if◌then◌else◌,
}
use py_capio.FsPath.{slash, dot, is_absolute, strip_slashes}

-- The text between slashes, empty pieces included, and its inverse.
abbrev pub begin_piece : ℕ → List Bytes → List Bytes
begin_piece c [] = (c ∷ []) ∷ []
begin_piece c (p ∷ ps) = (c ∷ p) ∷ ps

unfoldable pub pieces : Bytes → List Bytes
pieces [] = [] ∷ []
pieces (c ∷ s) = let ps = pieces s in if c == slash then [] ∷ ps else begin_piece c ps

unfoldable pub joined : List Bytes → Bytes
joined [] = []
joined (p ∷ []) = p
joined (p ∷ q ∷ ps) = p ++ (slash ∷ joined (q ∷ ps))

-- An empty piece leads nowhere, like a dot.
abbrev pub is_dot : Bytes → Bool
is_dot p = is_empty p || bytes_eq p (dot ∷ [])

abbrev pub up : Bytes
up = dot ∷ dot ∷ []

abbrev pub is_up : Bytes → Bool
is_up p = bytes_eq p up

-- Where a walk has led: up from where it began, and down the names, the last one first.
pub record Walk : Type 0 where
  pub ups : ℕ
  pub names : List Bytes

abbrev pub climb : Bool → ℕ → List Bytes → Walk
climb absolute u [] = record { ups = if absolute then u else suc u; names = [] }
climb absolute u (n ∷ ns) = record { ups = u; names = ns }

unfoldable pub step : Bool → Walk → Bytes → Walk
step absolute s p =
    if is_dot p
    then s
    else if is_up p
    then climb absolute s.ups s.names
    else record s { names = p ∷ s.names }

unfoldable pub walk : Bool → Walk → List Bytes → Walk
unfolding step
walk absolute s [] = s
walk absolute s (p ∷ ps) = walk absolute (step absolute s p) ps

abbrev pub start : Walk
start = record { ups = 0; names = [] }

-- Whether the last piece names no file of its own.
unfoldable pub ends_open : Bool → List Bytes → Bool
ends_open is_open [] = is_open
ends_open is_open (p ∷ ps) = ends_open (is_dot p || is_up p) ps

-- The pieces of the normal form
unfoldable pub climbs : ℕ → List Bytes → List Bytes
climbs zero rest = rest
climbs (suc u) rest = up ∷ climbs u rest

unfoldable pub spill : List Bytes → List Bytes → List Bytes
spill [] rest = rest
spill (n ∷ ns) rest = spill ns (n ∷ rest)

abbrev pub lead : Bool → List Bytes → List Bytes
lead absolute rest = if absolute then [] ∷ rest else rest

abbrev pub tail : Bool → Walk → Bool → List Bytes
tail absolute s is_open =
    if s.ups == 0 && is_empty s.names
    then (if absolute then [] else dot ∷ []) ∷ []
    else if is_open && not (is_empty s.names)
    then [] ∷ []
    else []

unfoldable pub normal_pieces : Bool → Walk → Bool → List Bytes
unfolding climbs spill
normal_pieces absolute s is_open =
    lead absolute (climbs s.ups (spill s.names (tail absolute s is_open)))

-- libstdc++ leaves a path of slashes alone as it is.
unfoldable pub lexically_normal : Bytes → Bytes
unfolding pieces joined walk ends_open normal_pieces
lexically_normal p =
    let s = walk (is_absolute p) start (pieces p) in
    if is_empty (strip_slashes p)
    then p
    else joined (normal_pieces (is_absolute p) s (ends_open false (pieces p)))
