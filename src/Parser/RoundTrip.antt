-- ===== src/Parser/RoundTrip.antt =====
-- protocol/parser: lines that are written by the rules of the protocol, and their tokens.
pub mod Sound
pub mod Printed
pub mod Written
pub mod Status
pub mod Reported
use adcl.Prelude.{
  ℕ, ◌<◌, ◌≡◌, ◌≢◌, ◌⊎◌, refl, ap, ◌∙◌, true, Bytes, [], ◌∷◌, ◌++◌, some, ok, arith, All, codes,
  take, drop, equal_refl,
}
use adcl.Stdlib.Utf8.{valid_string}
use adcl.Encoding.AdcString.{encode_byte, encoder_replace, decode_adc_string}
use adcl.Encoding.AdcString.RoundTrip.{
  decoder_replace-encoder_replace, valid_string-encoder_replace, encoder_replace-IsToken,
}
use adcl.Message.Params.{StringMap, map_set}
use adcl.Message.Header.{cih_header_fields, command_sta, parse_type}
use adcl.Message.Status.{StatusCode, code}
use adcl.Message.Status.Codes.{decimal3, code-parse_status_code}
use adcl.Message.Struct.{Message, sta}
use adcl.Parser.Lexer.{space}
use adcl.Parser.Lexer.Shape.{IsToken}
use adcl.Parser.Lexer.Tokens.{tokens, tokens_from, tokens-final, tokens-inner}
use adcl.Parser.MessageReader.{is_named, new_message_reader}
use adcl.Parser.Parse.{parse_message}
use adcl.Parser.Grammar.{Tokens, header_fields, flags, sta_content, content, fourcc, message}
use adcl.Parser.Grammar.HeaderRule.{parse_message_line}

-- The tokens of a line with single spaces between them.
abbrev pub line_of : Tokens → Bytes
line_of [] = []
line_of (t ∷ []) = t
line_of (t ∷ u ∷ ts) = t ++ (space ∷ line_of (u ∷ ts))

pub tokens-line_of : (ts : Tokens) → All IsToken ts → tokens (line_of ts) ≡ ts
tokens-line_of [] h = unfold tokens_from in refl
tokens-line_of (t ∷ []) (h, _) = tokens-final t h
tokens-line_of (t ∷ u ∷ ts) (h, hs) =
    tokens-inner t (line_of (u ∷ ts)) h ∙ ap (◌∷◌ t) (tokens-line_of (u ∷ ts) hs)

-- The map that named parameters make, in the order of the line.
abbrev pub flag_map : StringMap → Tokens → StringMap
flag_map m [] = m
flag_map m (t ∷ ts) = flag_map (map_set m (take 2 t) (drop 2 t)) ts

pub flags-flag_map :
    (ts : Tokens) (m : StringMap)
    → All (λ t. is_named t ≡ true) ts
    → flags m ts ≡ ok (flag_map m ts)
unfolding flags
flags-flag_map [] m h = refl
flags-flag_map (t ∷ ts) m (h, hs) = rw h (flags-flag_map ts _ hs)

pub decimal3-IsToken : (n : ℕ) → IsToken (decimal3 n)
decimal3-IsToken n = (cc, omega arith)

pub encoder_replace-ne-nil : (d : Bytes) → d ≢ [] → encoder_replace d ≢ []
unfolding encoder_replace encode_byte
encoder_replace-ne-nil [] h = h
encoder_replace-ne-nil (c ∷ cs) h = ground arith

-- The types whose messages carry no header fields.
abbrev pub IsPlain : ℕ → Type 0
IsPlain letter = (letter ≡ b'C') ⊎ (letter ≡ b'H') ⊎ (letter ≡ b'I')

pub decode-encoder_replace :
    (d : Bytes) → valid_string d ≡ true → decode_adc_string (encoder_replace d) ≡ ok d
unfolding decode_adc_string
decode-encoder_replace d h =
    rw (valid_string-encoder_replace d, h, decoder_replace-encoder_replace d)
