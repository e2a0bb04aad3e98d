-- ===== src/Encoding/AdcString/RoundTrip.antt =====
-- protocol/encoding/encoding.go: what a string parameter carries comes back from the wire, and
-- the text on the wire is one token of one line.
use adcl.Prelude.{
  ℕ, ◌≡◌, refl, ap, ◌∙◌, [], ◌∷◌, ◌++◌, Bytes, ok, ◌>>=◌, err, invalid_string, arith, if◌then◌else◌,
  All-append,
}
use adcl.Stdlib.Strings.{Lacks}
use adcl.Stdlib.Utf8.{Expect, start, valid_from-cons, valid_from, valid_string, utf8_step}
use adcl.Encoding.AdcString.{
  encode_byte, encoder_replace, decoder_replace, encode_to_adc_string, decode_adc_string,
}

decoder_replace-encode_byte :
    (c : ℕ) (rest : Bytes) → decoder_replace (encode_byte c ++ rest) ≡ c ∷ decoder_replace rest
unfolding decoder_replace encode_byte
decoder_replace-encode_byte c [] = ground arith
decoder_replace-encode_byte c (d ∷ rest) = ground arith

pub decoder_replace-encoder_replace : (s : Bytes) → decoder_replace (encoder_replace s) ≡ s
unfolding encoder_replace
decoder_replace-encoder_replace [] = unfold decoder_replace in refl
decoder_replace-encoder_replace (c ∷ cs) =
    decoder_replace-encode_byte c (encoder_replace cs)
    ∙ ap (◌∷◌ c) (decoder_replace-encoder_replace cs)

valid_from-encode_byte :
    (e : Expect) (c : ℕ) (rest : Bytes)
    → valid_from e (encode_byte c ++ rest) ≡ valid_from e (c ∷ rest)
unfolding valid_from encode_byte utf8_step
valid_from-encode_byte start c rest = ground arith
valid_from-encode_byte _ c rest = ground arith

valid_from-encoder_replace :
    (s : Bytes) (e : Expect) → valid_from e (encoder_replace s) ≡ valid_from e s
unfolding encoder_replace
valid_from-encoder_replace [] e = refl
valid_from-encoder_replace (c ∷ cs) e =
    valid_from-encode_byte e c _
    ∙ valid_from-cons e c (encoder_replace cs) cs (valid_from-encoder_replace cs)

pub valid_string-encoder_replace : (s : Bytes) → valid_string (encoder_replace s) ≡ valid_string s
unfolding valid_string
valid_string-encoder_replace s = valid_from-encoder_replace s start

-- Encoding fails exactly on a string that is not UTF-8; any other comes back by decoding.
pub decode_adc_string-encode :
    (s : Bytes)
    → (encode_to_adc_string s >>= decode_adc_string)
      ≡ (if valid_string s then ok s else err invalid_string)
unfolding encode_to_adc_string decode_adc_string
decode_adc_string-encode s =
    ground (arith, valid_string-encoder_replace s, decoder_replace-encoder_replace s)

encode_byte-IsToken : (c : ℕ) → Lacks b' ' (encode_byte c) × Lacks b'\n' (encode_byte c)
unfolding encode_byte
encode_byte-IsToken c = ground arith

-- The encoded text has neither a space nor a line end, so the lexer and the connection reader
-- take it as one token of one line.
pub encoder_replace-IsToken :
    (s : Bytes) → Lacks b' ' (encoder_replace s) × Lacks b'\n' (encoder_replace s)
unfolding encoder_replace
encoder_replace-IsToken [] = (tt, tt)
encoder_replace-IsToken (c ∷ cs) =
    let (h, k) = encode_byte-IsToken c in
    let (hs, ks) = encoder_replace-IsToken cs in
    (All-append _ (encode_byte c) _ h hs, All-append _ (encode_byte c) _ k ks)
