-- ===== src/PyCapioException/Sizes.antt =====
-- The number that a write gets (include/IOWrapper.hpp, `write`), its result or in the text of its
-- exception.
use py_capio.Base.{
  ℕ, zero, suc, ◌+◌, ◌-◌, ◌*◌, ◌/◌, ◌%◌, ◌<◌, ◌≡◌, refl, ap, ◌∙◌, ℤ, pos, negsuc, Bytes, Bool, true,
  false, not, c_str, ◌&&◌, [], ◌∷◌, ◌++◌, append_assoc, codes, leb, ltb, ◌==◌, if◌then◌else◌,
  Bool-cases, inl, inr, length, drop, arith, write_failed, digits, to_string, Option, some, none,
  eq_ℤ, Outcome, ok, raised, undefined, Exception, py_capio_exception,
}
use py_capio.Posix.{Capio, libcapio_write}
use py_capio.IoWrapper.{IoWrapper}
use py_capio.IoWrapper.Output.{write}
use py_capio.PyCapioException.{error_message, Python, what}

abbrev is_digit : ℕ → Bool
is_digit c = leb b'0' c && leb c b'9'

-- The number that a text begins with, behind the digits that make up `n`.
pub number_from : ℕ → Bytes → ℕ
number_from n [] = n
number_from n (c ∷ s) =
    let more = number_from (n * 10 + (c - b'0')) s in if is_digit c then more else n

abbrev negated : ℕ → ℤ
negated zero = pos 0
negated (suc n) = negsuc n

-- A signed number at the start of a text.
pub signed_from : Bytes → ℤ
signed_from [] = pos 0
signed_from (c ∷ s) = if c == b'-' then negated (number_from 0 s) else pos (number_from 0 (c ∷ s))

-- The size in the text of an exception.
pub size_of : Bytes → ℤ
size_of text =
    signed_from
      (drop (length (codes "PyCapioException: write failed: received from libcapio offset: ")) text)

number_from-digit :
    (n d : ℕ) (s : Bytes) → d < 10 → number_from n ((b'0' + d) ∷ s) ≡ number_from (n * 10 + d) s
unfolding number_from
number_from-digit n d s h = ground arith

number_from-digits :
    (fuel n : ℕ) (s : Bytes) → n < fuel → number_from 0 (digits fuel n ++ s) ≡ number_from n s
unfolding digits
number_from-digits zero n s h = absurd (omega arith)
number_from-digits (suc fuel) n s h = elim (Bool-cases (ltb n 10)) [
  | inl small ↦
      rw small
        (number_from-digit 0 n s (ground arith) ∙ ap (λ (m : ℕ). number_from m s) (omega arith))
  | inr large ↦
      let d : n % 10 < 10 = omega arith in
      let less : n / 10 < fuel = ground arith in
      rw large (
        ap (number_from 0) (append_assoc (digits fuel (n / 10)) ((b'0' + n % 10) ∷ []) s)
        ∙ number_from-digits fuel (n / 10) ((b'0' + n % 10) ∷ s) less
        ∙ number_from-digit (n / 10) (n % 10) s d
        ∙ ap (λ (m : ℕ). number_from m s) (omega arith))
]

-- What follows the digits of a size, the start of a line, ends the number.
number_from-line : (n : ℕ) (s : Bytes) → number_from n (10 ∷ s) ≡ n
unfolding number_from
number_from-line n s = refl

number_from-digits_line : (n : ℕ) (s : Bytes) → number_from 0 (digits (suc n) n ++ (10 ∷ s)) ≡ n
number_from-digits_line n s =
    number_from-digits (suc n) n (10 ∷ s) (omega arith) ∙ number_from-line n s

-- The digits begin with a byte that is no sign.
digits-cons :
    (fuel n : ℕ)
    → n < fuel
    → (c : ℕ) × (rest : Bytes) × (digits fuel n ≡ c ∷ rest) × ((c == b'-') ≡ false)
unfolding digits
digits-cons zero n h = absurd (omega arith)
digits-cons (suc fuel) n h = elim (Bool-cases (ltb n 10)) [
  | inl small ↦ (b'0' + n, [], rw small, ground arith)
  | inr large ↦
      let (c, rest, e, unsigned) = digits-cons fuel (n / 10) (ground arith) in
      (c, rest ++ ((b'0' + n % 10) ∷ []), rw (large, e), unsigned)
]

signed_from-digits :
    (fuel n : ℕ) (s : Bytes)
    → n < fuel
    → signed_from (digits fuel n ++ s) ≡ pos (number_from 0 (digits fuel n ++ s))
unfolding signed_from
signed_from-digits fuel n s h =
    let (c, rest, e, unsigned) = digits-cons fuel n h in rw (e, unsigned)

signed_from-to_string : (z : ℤ) (s : Bytes) → signed_from (to_string z ++ (10 ∷ s)) ≡ z
unfolding to_string signed_from number_from
signed_from-to_string (pos n) s =
    signed_from-digits (suc n) n (10 ∷ s) (omega arith) ∙ ap pos (number_from-digits_line n s)
signed_from-to_string (negsuc n) s = ap negated (number_from-digits_line (suc n) s)

-- A text without NUL.
abbrev is_text : Bytes → Bool
is_text [] = true
is_text (c ∷ s) = not (c == 0) && is_text s

c_str-append : (s more : Bytes) → is_text s ≡ true → c_str (s ++ more) ≡ s ++ c_str more
unfolding c_str
c_str-append [] more h = refl
c_str-append (c ∷ s) more h = ground (arith, c_str-append s more)

is_text-append : (s more : Bytes) → is_text (s ++ more) ≡ (is_text s && is_text more)
is_text-append [] more = refl
is_text-append (c ∷ s) more = ground (arith, is_text-append s more)

is_text-digits : (fuel n : ℕ) → is_text (digits fuel n) ≡ true
unfolding digits
is_text-digits zero n = refl
is_text-digits (suc fuel) n = ground (
  arith,
  is_text-digits fuel (n / 10),
  is_text-append (digits fuel (n / 10)) ((b'0' + n % 10) ∷ []),
)

is_text-to_string : (z : ℤ) → is_text (to_string z) ≡ true
unfolding to_string
is_text-to_string (pos n) = is_text-digits (suc n) n
is_text-to_string (negsuc n) = is_text-digits (suc (suc n)) (suc n)

size_of-what : (p : Python) (z : ℤ) → size_of (what p (error_message (write_failed z))) ≡ z
unfolding size_of what error_message c_str
size_of-what p z =
    ap signed_from (c_str-append (to_string z) _ (is_text-to_string z)) ∙ signed_from-to_string z _

-- The size that the end of a write tells: its value, or the number in the text of its exception.
abbrev pub told_by : Python → Exception → Option ℤ
told_by p (py_capio_exception m) = some (size_of (what p (error_message m)))
told_by p _ = none

abbrev pub told : Python → Outcome ℤ → Option ℤ
told p (ok z) = some z
told p (raised e) = told_by p e
told p undefined = none

abbrev pub has_returned : Outcome ℤ → Bool
has_returned (ok z) = true
has_returned (raised e) = false
has_returned undefined = false

-- The number that `libcapio_write` returns to `write` can be told from how `write` ends, whatever
-- the number and whatever the interpreter answers to the capture of its stack: `write` returns it
-- exactly where it is the length of the text, and elsewhere the text of its exception has it, read
-- back from behind the fixed words; the world is as `libcapio_write` left it.
pub size_of-write :
    (K : Capio) (p : Python) (self : IoWrapper) (text : Bytes) (w : K.World)
    → let r = libcapio_write K self.file_descriptor text w in
      let answer = write K self text w in
      (told p answer.0 ≡ some r.0)
      × (has_returned answer.0 ≡ eq_ℤ r.0 (pos (length text)))
      × (answer.1 ≡ r.1)
unfolding write
size_of-write K p self text w =
    let z = (libcapio_write K self.file_descriptor text w).0 in
    elim (Bool-cases (eq_ℤ z (pos (length text)))) [
      | inl h ↦ rw h (refl, refl, refl)
      | inr h ↦ rw h (ap some (size_of-what p z), refl, refl)
    ]
