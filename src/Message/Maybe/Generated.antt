-- ===== src/Message/Maybe/Generated.antt =====
-- protocol/maybe/gen-builtins.go, gen-base32value.go and gen-ip.go: the types that genny makes of
-- the template. A number of any width is a number, since the methods only pass it on.
pub mod History
use adcl.Prelude.{ℕ, ℤ, Bool, Bytes, Option, Error}
use adcl.Stdlib.Floats.{Floats}
use adcl.Encoding.Base32Value.{Base32Value}
use adcl.Message.Maybe.{Maybe, get, get_default, set, unset}

-- A type of the package: its values, its struct, and the methods of this.
pub record Generated : Type 1 where
  pub Value : Type 0
  pub Struct : Type 0
  pub get : Struct → Value × Bool
  pub get_default : Struct → Value → Value
  pub set : Struct → Value → Struct
  pub unset : Struct → Struct

-- What genny makes of the template for a type.
abbrev pub generated : Type 0 → Generated
generated A = record {
  Value = A;
  Struct = Maybe A;
  get = get;
  get_default = get_default;
  set = set;
  unset = unset;
}

abbrev maybe_bool : Generated
maybe_bool = generated Bool

abbrev maybe_byte : Generated
maybe_byte = generated ℕ

abbrev maybe_error : Generated
maybe_error = generated (Option Error)

abbrev pub maybe_int : Generated
maybe_int = generated ℤ

abbrev maybe_int16 : Generated
maybe_int16 = generated ℤ

abbrev maybe_int32 : Generated
maybe_int32 = generated ℤ

abbrev maybe_int64 : Generated
maybe_int64 = generated ℤ

abbrev maybe_int8 : Generated
maybe_int8 = generated ℤ

abbrev maybe_rune : Generated
maybe_rune = generated ℤ

abbrev maybe_string : Generated
maybe_string = generated Bytes

abbrev maybe_uint : Generated
maybe_uint = generated ℕ

abbrev maybe_uint16 : Generated
maybe_uint16 = generated ℕ

abbrev maybe_uint32 : Generated
maybe_uint32 = generated ℕ

abbrev maybe_uint64 : Generated
maybe_uint64 = generated ℕ

abbrev maybe_uint8 : Generated
maybe_uint8 = generated ℕ

abbrev maybe_uintptr : Generated
maybe_uintptr = generated ℕ

-- The pointer to the value.
abbrev maybe_base32_value : Generated
maybe_base32_value = generated (Option Base32Value)

-- The bytes of the address.
abbrev maybe_ip : Generated
maybe_ip = generated Bytes

module _ (F : Floats) where
  abbrev maybe_complex128 : Generated
  maybe_complex128 = generated (F.Float64 × F.Float64)

  abbrev maybe_complex64 : Generated
  maybe_complex64 = generated (F.Float32 × F.Float32)

  abbrev maybe_float32 : Generated
  maybe_float32 = generated F.Float32

  abbrev maybe_float64 : Generated
  maybe_float64 = generated F.Float64
