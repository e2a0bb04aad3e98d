-- ===== src/Parser/Named.antt =====
-- protocol/parser/message_reader.go: the type Named and its methods. The slices panic on a
-- parameter of less than two bytes. The methods for floating point numbers are given those.
use adcl.Prelude.{ℕ, ℤ, Bytes, Option, Error, Result, ok, ◌>>=◌, slice_from, slice_to}
use adcl.Stdlib.Strconv.{parse_uint, parse_int}
use adcl.Stdlib.Floats.{Floats}
use adcl.Parser.Positional.{narrowed}
use adcl.Encoding.AdcString.{decode_adc_string}
use adcl.Encoding.Base32Value.{Base32Value, parse_base32_value, decode_base32_string}

pub record Named : Type 0 where
  pub raw : Bytes

unfoldable pub name : Named → Result Bytes
name n = slice_to n.raw 2

unfoldable pub raw_value : Named → Result Bytes
raw_value n = slice_from n.raw 2

unfoldable pub value_bytes : Named → Result Bytes
unfolding raw_value
value_bytes n = raw_value n >>= ok

unfoldable pub value_string : Named → Result Bytes
unfolding raw_value
value_string n = raw_value n >>= decode_adc_string

unfoldable pub value_base32_value : Named → Result Base32Value
unfolding raw_value
value_base32_value n = raw_value n >>= parse_base32_value

unfoldable pub value_base32_bytes : Named → Result Bytes
unfolding raw_value
value_base32_bytes n = raw_value n >>= decode_base32_string

unfoldable pub value_uint64 : Named → Result ℕ
unfolding raw_value
value_uint64 n = raw_value n >>= parse_uint

unfoldable pub value_int64 : Named → Result ℤ
unfolding raw_value
value_int64 n = raw_value n >>= parse_int

unfoldable pub value_float64 : (F : Floats) → Named → Result (F.Float64 × Option Error)
unfolding raw_value
value_float64 F n = raw_value n >>= λ raw. ok (F.parse_float raw 64)

unfoldable pub value_float32 : (F : Floats) → Named → Result (F.Float32 × Option Error)
unfolding raw_value
value_float32 F n = raw_value n >>= λ raw. ok (narrowed F (F.parse_float raw 32))
