-- ===== src/Stdlib/Strconv/Decimal.antt =====
-- Package strconv: which texts ParseUint and ParseInt accept, by the place values of the digits.
use Prim.Native.Nat.{◌^◌}
use adcl.Prelude.{
  ℕ, zero, suc, ◌+◌, ◌-◌, ◌*◌, ◌≤◌, ◌<◌, ◌≡◌, refl, ap, ◌∙◌, Bytes, [], ◌∷◌, Bool, true, false,
  ◌&&◌, Option, none, some, Result, ok, err, panic, ℤ, pos, negsuc, ltb, leb, ◌==◌, if◌then◌else◌,
  arith, Bool-cases, inl, inr,
}
use adcl.Stdlib.Strconv.{max_uint64, digits, parse_uint, signed, parse_int}

abbrev pub is_digit : ℕ → Bool
is_digit c = leb b'0' c && leb c b'9'

abbrev pub are_digits : Bytes → Bool
are_digits [] = true
are_digits (c ∷ s) = is_digit c && are_digits s

-- The value of the place before these digits.
abbrev pub place : Bytes → ℕ
place [] = 1
place (c ∷ s) = 10 * place s

-- Each digit counts for its place.
abbrev pub place_value : Bytes → ℕ
place_value [] = 0
place_value (c ∷ s) = (c - b'0') * place s + place_value s

abbrev pub is_decimal : Bytes → Bool
is_decimal [] = false
is_decimal s = are_digits s

-- What is accepted, with its value.
abbrev pub accepted {ℓ} : {A : Type ℓ} → Result A → Option A
accepted (ok a) = some a
accepted _ = none

place_positive : (s : Bytes) → 0 < place s
place_positive [] = omega arith
place_positive (c ∷ s) = omega (arith, place_positive s)

le_mul : (m w : ℕ) → 0 < w → m ≤ m * w
le_mul m zero h = absurd (omega (arith, h))
le_mul m (suc k) h = omega arith

-- A digit behind a number stands at its place.
shifted :
    (n d : ℕ) (s : Bytes)
    → n * (10 * place s) + (d * place s + place_value s) ≡ (n * 10 + d) * place s + place_value s
shifted n d s = omega arith

-- What comes behind a number only makes it greater.
grown : (m : ℕ) (s : Bytes) → m ≤ m * place s + place_value s
grown m s = omega (arith, le_mul m (place s) (place_positive s))

-- The value of a text behind a number, if it is one and fits.
abbrev pub fitting : Bool → ℕ → Option ℕ
fitting given n = if given && leb n max_uint64 then some n else none

digits-place_value :
    (s : Bytes) (n : ℕ)
    → n ≤ max_uint64
    → accepted (digits s n) ≡ fitting (are_digits s) (n * place s + place_value s)
unfolding digits
digits-place_value [] n h = ground (arith, h)
digits-place_value (c ∷ s) n h = elim (Bool-cases (is_digit c)) [
  | inl given ↦ elim (Bool-cases (ltb max_uint64 (n * 10 + (c - b'0')))) [
    | inl over ↦
        rw (shifted n (c - b'0') s) (ground (arith, given, over, grown (n * 10 + (c - b'0')) s))
    | inr fits ↦ rw (shifted n (c - b'0') s) (
        ground
          (arith, given, fits, digits-place_value s (n * 10 + (c - b'0')) (ground (arith, fits))))
  ]
  | inr other ↦ ground (arith, other)
]

-- ParseUint accepts the texts of digits, one at least, of the numbers below 2^64.
pub parse_uint-place_value :
    (s : Bytes) → accepted (parse_uint s) ≡ fitting (is_decimal s) (place_value s)
unfolding parse_uint
parse_uint-place_value [] = refl
parse_uint-place_value (c ∷ s) =
    digits-place_value (c ∷ s) 0 (omega arith) ∙ ap (fitting (are_digits (c ∷ s))) (omega arith)

-- The integers that a magnitude stands for, without and with a minus sign.
abbrev pub negated : ℕ → ℤ
negated zero = pos 0
negated (suc n) = negsuc n

abbrev pub positive : Bytes → Option ℤ
positive s =
    if is_decimal s && ltb (place_value s) (2 ^ 63) then some (pos (place_value s)) else none

abbrev pub negative : Bytes → Option ℤ
negative s =
    if is_decimal s && leb (place_value s) (2 ^ 63) then some (negated (place_value s)) else none

-- The integer that a text stands for: digits, one at least, behind a sign or without one.
abbrev pub place_integer : Bytes → Option ℤ
place_integer [] = none
place_integer (c ∷ s) =
    if c == b'+' then positive s else if c == b'-' then negative s else positive (c ∷ s)

accepted-signed_positive :
    (r : Result ℕ)
    → accepted (signed false r)
      ≡ elim (accepted r) [ some n ↦ if leb (2 ^ 63) n then none else some (pos n) | none ↦ none ]
unfolding signed
accepted-signed_positive (ok n) = ground arith
accepted-signed_positive (err e) = refl
accepted-signed_positive panic = refl

accepted-signed_negative :
    (r : Result ℕ)
    → accepted (signed true r) ≡ elim (accepted r) [
      | some n ↦ if ltb (2 ^ 63) n then none else some (negated n)
      | none ↦ none
    ]
unfolding signed
accepted-signed_negative (ok zero) = ground arith
accepted-signed_negative (ok (suc n)) = ground arith
accepted-signed_negative (err e) = refl
accepted-signed_negative panic = refl

parse_positive : (s : Bytes) → accepted (signed false (parse_uint s)) ≡ positive s
parse_positive s =
    accepted-signed_positive (parse_uint s) ∙ rw (parse_uint-place_value s) (ground arith)

parse_negative : (s : Bytes) → accepted (signed true (parse_uint s)) ≡ negative s
parse_negative s =
    accepted-signed_negative (parse_uint s) ∙ rw (parse_uint-place_value s) (ground arith)

-- ParseInt accepts the integers from -2^63 on that are below 2^63.
pub parse_int-place_integer : (s : Bytes) → accepted (parse_int s) ≡ place_integer s
unfolding parse_int
parse_int-place_integer [] = refl
parse_int-place_integer (c ∷ s) = elim (Bool-cases (c == b'+')) [
  | inl plus ↦ rw plus (parse_positive s)
  | inr unsigned ↦ elim (Bool-cases (c == b'-')) [
    | inl minus ↦ rw (unsigned, minus) (parse_negative s)
    | inr digit ↦ rw (unsigned, digit) (parse_positive (c ∷ s))
  ]
]
