-- ===== src/Parser/Positional.antt =====
-- protocol/parser/message_reader.go: the type Positional and its methods. The methods for
-- floating point numbers are given those.
use adcl.Prelude.{ℕ, ℤ, Bytes, Option, Error, Result, ok}
use adcl.Stdlib.Strconv.{parse_uint, parse_int}
use adcl.Stdlib.Floats.{Floats}
use adcl.Encoding.AdcString.{decode_adc_string}
use adcl.Encoding.Base32Value.{Base32Value, parse_base32_value, decode_base32_string}

pub record Positional : Type 0 where
  pub raw : Bytes

unfoldable pub raw_value : Positional → Bytes
raw_value p = p.raw

unfoldable pub value_bytes : Positional → Result Bytes
unfolding raw_value
value_bytes p = ok (raw_value p)

unfoldable pub value_string : Positional → Result Bytes
unfolding raw_value
value_string p = decode_adc_string (raw_value p)

unfoldable pub value_base32_value : Positional → Result Base32Value
unfolding raw_value
value_base32_value p = parse_base32_value (raw_value p)

unfoldable pub value_base32_bytes : Positional → Result Bytes
unfolding raw_value
value_base32_bytes p = decode_base32_string (raw_value p)

unfoldable pub value_uint64 : Positional → Result ℕ
unfolding raw_value
value_uint64 p = parse_uint (raw_value p)

unfoldable pub value_int64 : Positional → Result ℤ
unfolding raw_value
value_int64 p = parse_int (raw_value p)

-- `f, err := strconv.ParseFloat(..., 32)`, and the value narrowed.
abbrev pub narrowed : (F : Floats) → F.Float64 × Option Error → F.Float32 × Option Error
narrowed F (f, e) = (F.to_float32 f, e)

unfoldable pub value_float64 : (F : Floats) → Positional → F.Float64 × Option Error
unfolding raw_value
value_float64 F p = F.parse_float (raw_value p) 64

unfoldable pub value_float32 : (F : Floats) → Positional → F.Float32 × Option Error
unfolding raw_value
value_float32 F p = narrowed F (F.parse_float (raw_value p) 32)
