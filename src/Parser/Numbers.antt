-- ===== src/Parser/Numbers.antt =====
-- protocol/parser/message_reader.go: the numbers that ValueUint64 and ValueInt64 give.
use adcl.Prelude.{ℕ, ◌≡◌, ◌∷◌, Bytes, Option, ap, ◌∙◌, ok, ◌>>=◌, arith}
use adcl.Stdlib.Strconv.{parse_uint, parse_int}
use adcl.Stdlib.Strconv.Decimal.{
  accepted, fitting, is_decimal, place_value, place_integer, parse_uint-place_value,
  parse_int-place_integer,
}
use adcl.Parser.Positional
use adcl.Parser.Positional.{Positional}
use adcl.Parser.Named
use adcl.Parser.Named.{Named}

-- A number beyond its type is not accepted, and neither is a text without a digit.
abbrev pub uint64_of : Bytes → Option ℕ
uint64_of text = fitting (is_decimal text) (place_value text)

raw_value-two : (a b : ℕ) (text : Bytes) → Named.raw_value (record { raw = a ∷ b ∷ text }) ≡ ok text
unfolding Named.raw_value
raw_value-two a b text = ground arith

-- For a text as a positional parameter, and behind a name of two bytes as a named one, ValueUint64
-- accepts exactly the digits of the numbers below 2^64, and ValueInt64 those of the integers from
-- -2^63 on that are below 2^63, also behind a plus sign; each gives the sum of the digits at their
-- places.
pub values-place_value :
    (a b : ℕ) (text : Bytes)
    → (accepted (Positional.value_uint64 (record { raw = text })) ≡ uint64_of text)
      × (accepted (Positional.value_int64 (record { raw = text })) ≡ place_integer text)
      × (accepted (Named.value_uint64 (record { raw = a ∷ b ∷ text })) ≡ uint64_of text)
      × (accepted (Named.value_int64 (record { raw = a ∷ b ∷ text })) ≡ place_integer text)
unfolding Positional.value_uint64 Positional.value_int64 Named.value_uint64 Named.value_int64
values-place_value a b text = (
  parse_uint-place_value text,
  parse_int-place_integer text,
  ap (λ r. accepted (r >>= parse_uint)) (raw_value-two a b text) ∙ parse_uint-place_value text,
  ap (λ r. accepted (r >>= parse_int)) (raw_value-two a b text) ∙ parse_int-place_integer text,
)
