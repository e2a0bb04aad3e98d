-- ===== src/Stdlib/Utf8.antt =====
-- Package unicode/utf8: ValidString as a machine that reads a byte at a time.
use adcl.Prelude.{
  ℕ, ◌≡◌, Bool, true, false, ◌&&◌, [], ◌∷◌, Bytes, Option, none, some, Option-cases, inl, inr, ltb,
  leb, if◌then◌else◌,
}

-- What may come next: a new character; or a byte of the range, then `more` further
-- continuation bytes.
pub data Expect : Type 0 where
  start : Expect
  one two three : Expect
  after_e0 after_ed after_f0 after_f4 : Expect

abbrev within : ℕ → ℕ → ℕ → Bool
within lo hi c = leb lo c && leb c hi

-- The table of well-formed byte sequences of the Unicode standard.
unfoldable pub utf8_step : Expect → ℕ → Option Expect
utf8_step start c =
    if ltb c 0x80
    then some start
    else if within 0xC2 0xDF c
    then some one
    else if within 0xE0 0xE0 c
    then some after_e0
    else if within 0xED 0xED c
    then some after_ed
    else if within 0xE1 0xEF c
    then some two
    else if within 0xF0 0xF0 c
    then some after_f0
    else if within 0xF1 0xF3 c
    then some three
    else if within 0xF4 0xF4 c
    then some after_f4
    else none
utf8_step one c = if within 0x80 0xBF c then some start else none
utf8_step two c = if within 0x80 0xBF c then some one else none
utf8_step three c = if within 0x80 0xBF c then some two else none
utf8_step after_e0 c = if within 0xA0 0xBF c then some one else none
utf8_step after_ed c = if within 0x80 0x9F c then some one else none
utf8_step after_f0 c = if within 0x90 0xBF c then some two else none
utf8_step after_f4 c = if within 0x80 0x8F c then some two else none

abbrev at_start : Expect → Bool
at_start start = true
at_start _ = false

unfoldable pub valid_from : Expect → Bytes → Bool
valid_from e [] = at_start e
valid_from e (c ∷ cs) = elim (utf8_step e c) [ some e' ↦ valid_from e' cs | none ↦ false ]

-- utf8.ValidString
unfoldable pub valid_string : Bytes → Bool
unfolding valid_from utf8_step
valid_string s = valid_from start s

-- Texts that the machine cannot tell apart stay so behind one more byte.
pub valid_from-cons :
    (e : Expect) (c : ℕ) (xs ys : Bytes)
    → ((d : Expect) → valid_from d xs ≡ valid_from d ys)
    → valid_from e (c ∷ xs) ≡ valid_from e (c ∷ ys)
unfolding valid_from
valid_from-cons e c xs ys h = elim (Option-cases (utf8_step e c)) [
  | inl q ↦ rw (q, valid_from)
  | inr (d, q) ↦ rw (q, valid_from) (h d)
]
