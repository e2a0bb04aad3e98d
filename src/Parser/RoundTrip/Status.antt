-- ===== src/Parser/RoundTrip/Status.antt =====
-- protocol/parser/parse.go, parse_sta.go: status messages of every type, written and read.
use adcl.Prelude.{
  arith, ℕ, ◌<◌, ◌≡◌, ◌≢◌, refl, ap, ◌∙◌, sym, true, Bytes, [], ◌∷◌, some, ok, equal, All,
  All-append,
}
use adcl.Stdlib.Utf8.{valid_string}
use adcl.Encoding.AdcString.{encoder_replace}
use adcl.Encoding.AdcString.RoundTrip.{encoder_replace-IsToken}
use adcl.Message.Params.{StringMap}
use adcl.Message.Header.{HeaderFields, cih_header_fields, command_sta}
use adcl.Message.Status.{StatusCode, code}
use adcl.Message.Status.Codes.{decimal3, code-parse_status_code, parse_status_code-code}
use adcl.Message.Struct.{Message, sta}
use adcl.Parser.Lexer.{space}
use adcl.Parser.Lexer.Shape.{IsToken}
use adcl.Parser.MessageReader.{is_named, new_message_reader}
use adcl.Parser.Parse.{parse_message}
use adcl.Parser.Grammar.{Tokens, sta_content, content, message}
use adcl.Parser.Grammar.HeaderRule.{parse_message_line}
use adcl.Parser.RoundTrip.{
  IsPlain, line_of, tokens-line_of, flag_map, flags-flag_map, decimal3-IsToken,
  encoder_replace-ne-nil, decode-encoder_replace,
}
use adcl.Parser.RoundTrip.Sound.{fields_tokens, Carries}
use adcl.Parser.RoundTrip.Printed.{ArePrinted}
use adcl.Parser.RoundTrip.Written.{
  message_tokens, fourcc-written, header_fields-written, parse_type-Carries,
}

-- The parameters of a status.
abbrev pub status_tokens : StatusCode → Bytes → Tokens → Tokens
status_tokens st description fs = decimal3 (code st) ∷ encoder_replace description ∷ fs

abbrev pub status_message : ℕ → HeaderFields → StatusCode → Bytes → StringMap → Message
status_message letter fields st description fs = record {
  type = letter;
  command = command_sta;
  header_fields = fields;
  content = some (
      sta (record {
        code = st;
        code_str = [];
        description = description;
        description_str = [];
        flags = fs;
      }));
}

pub status_tokens-AreTokens :
    (st : StatusCode) (description : Bytes) (fs : Tokens)
    → description ≢ []
    → All IsToken fs
    → All IsToken (status_tokens st description fs)
status_tokens-AreTokens st description fs ne toks = (
  decimal3-IsToken (code st),
  ((encoder_replace-ne-nil description ne, (encoder_replace-IsToken description).0), toks),
)

-- A status message of any type is read back, with header fields of the type that can be written,
-- any code with an error part below 100, any description that is UTF-8 and not empty, and any named
-- parameters.
pub parse_message-status_tokens :
    (letter : ℕ) (st : StatusCode) (description : Bytes) (fields : HeaderFields) (fs : Tokens)
    → Carries letter fields
    → ArePrinted fields
    → st.error < 100
    → valid_string description ≡ true
    → description ≢ []
    → All IsToken fs
    → All (λ t. is_named t ≡ true) fs
    → (parse_message (
        new_message_reader
          (line_of (message_tokens letter command_sta fields (status_tokens st description fs))))).0
      ≡ ok (status_message letter fields st description (flag_map [] fs))
unfolding message content sta_content equal
parse_message-status_tokens letter st description fields fs carries printed small valid ne toks
      nameds =
    let (typ, apart) = parse_type-Carries space letter fields (omega arith) carries in
    let (first, head) = fourcc-written letter command_sta typ apart refl refl in
    let params = status_tokens st description fs in
    let (middle, read) = header_fields-written letter fields params carries printed in
    let line = message_tokens letter command_sta fields params in
    parse_message_line (line_of line)
    ∙ ap message (
        tokens-line_of line (
          first,
          All-append IsToken (fields_tokens fields) params middle
              (status_tokens-AreTokens st description fs ne toks),
        ))
    ∙ rw
        (
          head,
          read,
          parse_status_code-code st small,
          decode-encoder_replace description valid,
          flags-flag_map fs [] nameds,
        )
        refl

-- The same of a type without header fields, for any number below 300.
parse_message-sta_line :
    (letter n : ℕ) (description : Bytes) (fs : Tokens)
    → IsPlain letter
    → n < 300
    → valid_string description ≡ true
    → description ≢ []
    → All IsToken fs
    → All (λ t. is_named t ≡ true) fs
    → (st : StatusCode) × (code st ≡ n)
      × ((parse_message (
            new_message_reader
              (line_of ((letter ∷ command_sta) ∷ decimal3 n ∷ encoder_replace description ∷ fs)))).0
          ≡ ok (status_message letter cih_header_fields st description (flag_map [] fs)))
parse_message-sta_line letter n description fs plain small valid ne toks nameds =
    let (st, parsed, back, digit) = code-parse_status_code n small in
    (
      st,
      back,
      ap
            (λ k.
              (parse_message (
                new_message_reader (
                  line_of
                    ((letter ∷ command_sta) ∷ decimal3 k ∷ encoder_replace description ∷ fs)))).0)
            (sym back)
          ∙ parse_message-status_tokens letter st description cih_header_fields fs plain tt digit
              valid ne toks nameds,
    )
