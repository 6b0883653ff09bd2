-- ===== src/IoWrapper/Lines.antt =====
-- The lines of a text, for `IOWrapper::readline` and its kin: the bytes up to a newline, that newline
-- included. It models no code of its own.
use py_capio.Base.{
  Bool, ◌&&◌, ap, ◌∙◌, append-nil, ◌≤◌, ◌<◌, true, false, length, is_empty, ℕ, zero, suc, ◌<◌, ◌≡◌,
  refl, Bytes, none, some, List, [], ◌∷◌, ◌++◌, length, take, drop, arith, ◌==◌, if◌then◌else◌,
  find,
}

-- The first line of a text, and what follows it.
pub line_of : Bytes → Bytes
line_of [] = []
line_of (c ∷ s) = if c == 10 then c ∷ [] else c ∷ line_of s

pub rest_of : Bytes → Bytes
rest_of [] = []
rest_of (c ∷ s) = if c == 10 then s else rest_of s

-- Puts a byte before the first line.
abbrev prepend : ℕ → List Bytes → List Bytes
prepend c [] = (c ∷ []) ∷ []
prepend c (l ∷ ls) = (c ∷ l) ∷ ls

-- All lines of a text.
pub lines : Bytes → List Bytes
lines [] = []
lines (c ∷ s) = if c == 10 then (c ∷ []) ∷ lines s else prepend c (lines s)

abbrev pub concat : List Bytes → Bytes
concat [] = []
concat (l ∷ ls) = l ++ concat ls

concat-prepend : (c : ℕ) (ls : List Bytes) → concat (prepend c ls) ≡ c ∷ concat ls
concat-prepend c [] = refl
concat-prepend c (l ∷ ls) = refl

pub line_of-append-rest_of : (s : Bytes) → line_of s ++ rest_of s ≡ s
unfolding line_of rest_of
line_of-append-rest_of [] = refl
line_of-append-rest_of (c ∷ s) = ground (arith, line_of-append-rest_of s)

pub is_empty-line_of : (s : Bytes) → is_empty (line_of s) ≡ is_empty s
unfolding line_of
is_empty-line_of [] = refl
is_empty-line_of (c ∷ s) = ground arith

pub length-rest_of-le : (s : Bytes) → length (rest_of s) ≤ length s
unfolding rest_of
length-rest_of-le [] = omega arith
length-rest_of-le (c ∷ s) = ground (arith, length-rest_of-le s)

pub lines-step : (c : ℕ) (s : Bytes) → lines (c ∷ s) ≡ line_of (c ∷ s) ∷ lines (rest_of (c ∷ s))
unfolding lines line_of rest_of
lines-step c [] = ground arith
lines-step c (d ∷ s) = ground (arith, lines-step d s)

-- A text that is not empty has its first line, and the lines of what follows it.
pub lines-cons :
    (s : Bytes)
    → is_empty s ≡ false
    → (lines s ≡ line_of s ∷ lines (rest_of s)) × (length (rest_of s) < length s)
unfolding rest_of
lines-cons [] h = cc
lines-cons (c ∷ s) h = (lines-step c s, ground (arith, length-rest_of-le s))

pub lines-nil : (s : Bytes) → is_empty s ≡ true → (s ≡ []) × (lines s ≡ []) × (rest_of s ≡ [])
unfolding lines rest_of
lines-nil [] h = (refl, refl, refl)
lines-nil (c ∷ s) h = cc

pub concat-lines : (s : Bytes) → concat (lines s) ≡ s
unfolding lines
concat-lines [] = refl
concat-lines (c ∷ s) = ground (arith, concat-lines s, concat-prepend c (lines s))

-- A newline in the buffer ends the first line of the stream.
pub line_of-found :
    (b r : Bytes) (i : ℕ)
    → find 10 b ≡ some i
    → (line_of (b ++ r) ≡ take (suc i) b) × (rest_of (b ++ r) ≡ drop (suc i) b ++ r)
unfolding find line_of rest_of
line_of-found [] r i h = ground arith
line_of-found (c ∷ b) r zero h = ground arith
line_of-found (c ∷ b) r (suc i) h = ground (arith, line_of-found b r i)

-- Without one, the line goes on behind the buffer.
pub line_of-not_found :
    (b r : Bytes)
    → find 10 b ≡ none
    → (line_of (b ++ r) ≡ b ++ line_of r) × (rest_of (b ++ r) ≡ rest_of r)
unfolding find line_of rest_of
line_of-not_found [] r h = (refl, refl)
line_of-not_found (c ∷ b) r h = ground (arith, line_of-not_found b r)

-- The last line, where the stream ends behind the buffer.
pub last_line :
    (b r : Bytes) → find 10 b ≡ none → r ≡ [] → (line_of (b ++ r) ≡ b) × (rest_of (b ++ r) ≡ [])
unfolding line_of rest_of
last_line b r h e =
    (rw ((line_of-not_found b r h).0, e) (append-nil b), rw ((line_of-not_found b r h).1, e))

-- A newline at the end, and nowhere else.
abbrev pub is_line : Bytes → Bool
is_line [] = false
is_line (c ∷ l) = if c == 10 then is_empty l else is_line l

abbrev pub are_lines : List Bytes → Bool
are_lines [] = true
are_lines (l ∷ ls) = is_line l && are_lines ls

lines-line : (l s : Bytes) → is_line l ≡ true → lines (l ++ s) ≡ l ∷ lines s
unfolding lines
lines-line [] s h = cc
lines-line (c ∷ []) s h = ground arith
lines-line (c ∷ d ∷ l) s h = ground (arith, lines-line (d ∷ l) s)

pub lines-concat : (ls : List Bytes) → are_lines ls ≡ true → lines (concat ls) ≡ ls
unfolding lines
lines-concat [] h = refl
lines-concat (l ∷ ls) h =
    lines-line l (concat ls) (ground arith) ∙ ap (λ t. l ∷ t) (lines-concat ls (ground arith))
