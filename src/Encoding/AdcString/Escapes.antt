-- ===== src/Encoding/AdcString/Escapes.antt =====
-- protocol/encoding/encoding.go: the texts that are encodings, and what decoding does to them.
use adcl.Prelude.{
  ℕ, ◌≡◌, refl, ap, ◌∙◌, sym, Bool, true, not, ◌&&◌, ◌||◌, [], ◌∷◌, ◌++◌, Bytes, ok, err, ◌>>=◌,
  invalid_string, arith, ◌==◌, if◌then◌else◌, Bool-cases, inl, inr,
}
use adcl.Stdlib.Utf8.{valid_string}
use adcl.Encoding.AdcString.{
  encode_byte, encoder_replace, decoder_replace, encode_to_adc_string, decode_adc_string,
}
use adcl.Encoding.AdcString.RoundTrip.{valid_string-encoder_replace}

abbrev is_plain : ℕ → Bool
is_plain c = not (c == b'\\') && not (c == b' ') && not (c == b'\n')

-- No space, no line end, and behind each backslash the second byte of one of the three escapes.
abbrev pub is_escaped : Bytes → Bool
is_escaped [] = true
is_escaped (c ∷ []) = is_plain c
is_escaped (c ∷ d ∷ cs) =
    let rest = is_escaped cs in
    let rest_from_d = is_escaped (d ∷ cs) in
    if c == b'\\' then (d == b's' || d == b'n' || d == b'\\') && rest else is_plain c && rest_from_d

encode_byte-is_plain : (c : ℕ) → is_plain c ≡ true → encode_byte c ≡ c ∷ []
unfolding encode_byte
encode_byte-is_plain c h = ground (arith, h)

-- An escaped text is the encoding of what it stands for.
encoder_replace-decoder_replace :
    (t : Bytes) → is_escaped t ≡ true → encoder_replace (decoder_replace t) ≡ t
unfolding encoder_replace decoder_replace encode_byte
encoder_replace-decoder_replace [] h = refl
encoder_replace-decoder_replace (c ∷ []) h = ground (arith, h)
encoder_replace-decoder_replace (c ∷ d ∷ cs) h = elim (Bool-cases (c == b'\\')) [
  | inl escape ↦ ground (arith, h, escape, encoder_replace-decoder_replace cs)
  | inr other ↦ ground (arith, h, other, encoder_replace-decoder_replace (d ∷ cs))
]

is_escaped-encode_byte :
    (c : ℕ) (rest : Bytes) → is_escaped (encode_byte c ++ rest) ≡ is_escaped rest
unfolding encode_byte
is_escaped-encode_byte c [] = ground arith
is_escaped-encode_byte c (d ∷ rest) = ground arith

-- An encoding is escaped.
pub is_escaped-encoder_replace : (s : Bytes) → is_escaped (encoder_replace s) ≡ true
unfolding encoder_replace
is_escaped-encoder_replace [] = refl
is_escaped-encoder_replace (c ∷ cs) =
    is_escaped-encode_byte c (encoder_replace cs) ∙ is_escaped-encoder_replace cs

-- Decoding a text without spaces and line ends, in which each backslash begins an escape, and
-- encoding the result gives the text back if it is UTF-8, and ErrInvalidString otherwise.
pub encode_to_adc_string-decode :
    (t : Bytes)
    → is_escaped t ≡ true
    → (decode_adc_string t >>= encode_to_adc_string)
      ≡ (if valid_string t then ok t else err invalid_string)
unfolding encode_to_adc_string decode_adc_string
encode_to_adc_string-decode t h =
    let back = encoder_replace-decoder_replace t h in
    let valid : valid_string (decoder_replace t) ≡ valid_string t =
      sym (valid_string-encoder_replace (decoder_replace t)) ∙ ap valid_string back in
    ground (arith, back, valid)
