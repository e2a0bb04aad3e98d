-- ===== src/Encoding/AdcString.antt =====
-- protocol/encoding/encoding.go: the escapes of ADC string parameters.
pub mod RoundTrip
pub mod Escapes
use adcl.Prelude.{
  ℕ, Bool, true, false, List, [], ◌∷◌, ◌++◌, Bytes, Result, ok, err, invalid_string, ◌==◌,
  if◌then◌else◌,
}
use adcl.Stdlib.Utf8.{valid_string}

-- The three pairs of `encoder`. A Replacer compares at each position in argument order and does
-- not look at what it has written.
unfoldable pub encode_byte : ℕ → Bytes
encode_byte c =
    if c == b' '
    then b'\\' ∷ b's' ∷ []
    else if c == b'\n'
    then b'\\' ∷ b'n' ∷ []
    else if c == b'\\'
    then b'\\' ∷ b'\\' ∷ []
    else c ∷ []

-- encoder.Replace
unfoldable pub encoder_replace : Bytes → Bytes
encoder_replace [] = []
encoder_replace (c ∷ cs) = encode_byte c ++ encoder_replace cs

-- decoder.Replace: a backslash with another byte behind it stays as it is.
unfoldable pub decoder_replace : Bytes → Bytes
decoder_replace [] = []
decoder_replace (c ∷ []) = c ∷ []
decoder_replace (c ∷ d ∷ cs) =
    let rest = decoder_replace cs in
    let rest_from_d = decoder_replace (d ∷ cs) in
    if c == b'\\'
    then (if d == b's'
        then b' ' ∷ rest
        else if d == b'n'
        then b'\n' ∷ rest
        else if d == b'\\'
        then b'\\' ∷ rest
        else c ∷ rest_from_d)
    else c ∷ rest_from_d

unfoldable pub encode_to_adc_string : Bytes → Result Bytes
encode_to_adc_string s = if valid_string s then ok (encoder_replace s) else err invalid_string

unfoldable pub decode_adc_string : Bytes → Result Bytes
decode_adc_string s = if valid_string s then ok (decoder_replace s) else err invalid_string
