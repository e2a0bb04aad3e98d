-- ===== src/Encoding/Base32Value.antt =====
-- protocol/encoding/base32.go
use adcl.Prelude.{
  err, corrupt_input, ◌⊎◌, ◌≡◌, refl, Bool, true, false, [], Bytes, Result, ok, ◌>>=◌,
  if◌then◌else◌, arith,
}
use adcl.Stdlib.Base32.{
  encode_to_string, decode_string, IsBytes, decode_string-encode, decode_string_total,
}

unfoldable pub encode_to_base32_string : Bytes → Bytes
encode_to_base32_string src = encode_to_string src

unfoldable pub decode_base32_string : Bytes → Result Bytes
decode_base32_string s = decode_string s

pub record Base32Value : Type 0 where
  pub raw : Bytes
  pub str_set : Bool
  pub str : Bytes

unfoldable pub new_base32_value : Bytes → Base32Value
new_base32_value raw = record { raw = raw; str_set = false; str = [] }

unfoldable pub parse_base32_value : Bytes → Result Base32Value
unfolding decode_base32_string
parse_base32_value str = do
  raw ← decode_base32_string str
  ok (record { raw = raw; str_set = true; str = str })

-- The method writes its cache, so it gives the value back too.
unfoldable pub string : Base32Value → Bytes × Base32Value
unfolding encode_to_base32_string
string b =
    let b' =
      if b.str_set then b else record b { str = encode_to_base32_string b.raw; str_set = true } in
    (b'.str, b')

unfoldable pub raw_bytes : Base32Value → Bytes
raw_bytes b = b.raw

-- A value made of bytes prints to a text that parses to a value of the same bytes, and the
-- parsed value prints to that text.
pub parse_base32_value-string :
    (src : Bytes)
    → IsBytes src
    → (v : Base32Value) × (parse_base32_value (string (new_base32_value src)).0 ≡ ok v)
      × (raw_bytes v ≡ src)
      × ((string v).0 ≡ (string (new_base32_value src)).0)
unfolding parse_base32_value string new_base32_value raw_bytes
parse_base32_value-string src h = (
  record { raw = src; str_set = true; str = encode_to_string src },
  rw (decode_string-encode src h),
  refl,
  refl,
)

-- Printing is stable: the second call gives the text of the first, changes nothing, and the bytes
-- stay as they are.
string_idem :
    (b : Base32Value) → (string (string b).1 ≡ string b) × (raw_bytes (string b).1 ≡ raw_bytes b)
unfolding string raw_bytes
string_idem b = (ground arith, ground arith)

-- Parsing gives a value, or the one error of the decoder.
pub parse_base32_value_total :
    (s : Bytes)
    → ((v : Base32Value) × (parse_base32_value s ≡ ok v))
      ⊎ (parse_base32_value s ≡ err corrupt_input)
unfolding parse_base32_value
parse_base32_value_total s = ground (arith, decode_string_total s)
