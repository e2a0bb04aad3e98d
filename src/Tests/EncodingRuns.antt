-- ===== src/Tests/EncodingRuns.antt =====
-- protocol/encoding at concrete inputs.
use adcl.Prelude.{◌≡◌, refl, codes, Bytes, ok, ◌>>=◌, if◌then◌else◌, err, invalid_string}
use adcl.Stdlib.Utf8.{valid_string}
use adcl.Encoding.AdcString.{encode_to_adc_string, decode_adc_string, encoder_replace}
use adcl.Encoding.AdcString.RoundTrip.{decode_adc_string-encode}
use adcl.Encoding.AdcString.Escapes.{is_escaped-encoder_replace, encode_to_adc_string-decode}
use adcl.Encoding.Base32Value.{
  Base32Value, new_base32_value, parse_base32_value, string, raw_bytes, parse_base32_value-string,
}
use adcl.Tests.{small-All}

abbrev text : Bytes
text = codes "a b\\c\nd"

decode_adc_string-encode_example :
    (encode_to_adc_string text >>= decode_adc_string)
    ≡ (if valid_string text then ok text else err invalid_string)
decode_adc_string-encode_example = decode_adc_string-encode text

encode_to_adc_string-decode_example :
    (decode_adc_string (encoder_replace text) >>= encode_to_adc_string) ≡ (
      if valid_string (encoder_replace text) then ok (encoder_replace text) else err invalid_string)
encode_to_adc_string-decode_example =
    encode_to_adc_string-decode (encoder_replace text) (is_escaped-encoder_replace text)

parse_base32_value-string_example :
    (v : Base32Value) × (parse_base32_value (string (new_base32_value text)).0 ≡ ok v)
    × (raw_bytes v ≡ text)
    × ((string v).0 ≡ (string (new_base32_value text)).0)
parse_base32_value-string_example = parse_base32_value-string text (small-All text refl)
