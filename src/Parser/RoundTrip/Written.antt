-- ===== src/Parser/RoundTrip/Written.antt =====
-- protocol/parser/parse.go: a message that is written by the rules of the protocol is read back.
use adcl.Prelude.{
  ℕ, ◌≡◌, ◌≢◌, ◌<◌, refl, ap, ◌∙◌, Bool, true, false, not, ◌&&◌, Bytes, List, [], ◌∷◌, ◌++◌, some,
  ok, arith, ◌==◌, equal, equal_iff, inl, inr, All, All-append, Bool-cases,
}
use adcl.Message.Header.{
  parse_type, HeaderFields, broadcast_header_fields, cih_header_fields, de_header_fields,
  feature_header_fields, udp_header_fields, command_sta, known_commands,
}
use adcl.Message.Header.Commands.{is_one_of}
use adcl.Message.Struct.{Message, generic}
use adcl.Parser.Features.Encoded.{parse_features-text}
use adcl.Parser.Grammar.{Tokens, header_fields, content, fourcc, message}
use adcl.Parser.Grammar.HeaderRule.{parse_message_line}
use adcl.Parser.Lexer.{space}
use adcl.Parser.Lexer.Shape.{IsToken}
use adcl.Parser.MessageReader.{new_message_reader}
use adcl.Parser.Parse.{parse_message}
use adcl.Parser.RoundTrip.{line_of, tokens-line_of}
use adcl.Parser.RoundTrip.Printed.{
  ArePrinted, text_of-IsPrinted, features_text-Lacks, features_text-ne-nil,
}
use adcl.Parser.RoundTrip.Sound.{fields_tokens, Carries}

-- The name of a command: three bytes without a space.
abbrev plain_name : Bytes → Bool
plain_name (b ∷ c ∷ d ∷ []) = not (b == space) && not (c == space) && not (d == space)
plain_name _ = false

abbrev pub every : (Bytes → Bool) → List Bytes → Bool
every f [] = true
every f (s ∷ ss) = f s && every f ss

pub every-is_one_of :
    (f : Bytes → Bool) (s : Bytes) (cs : List Bytes)
    → every f cs ≡ true
    → is_one_of s cs ≡ true
    → f s ≡ true
every-is_one_of f s [] h e = cc
every-is_one_of f s (c ∷ cs) h e = elim (Bool-cases (equal s c)) [
  | inl same ↦ rw ((equal_iff s c).0 same) (ground (arith, h))
  | inr other ↦ every-is_one_of f s cs (ground (arith, h)) (rw other at e)
]

pub fourcc-written :
    (letter : ℕ) (name : Bytes)
    → parse_type letter ≡ ok letter
    → letter ≢ space
    → is_one_of name known_commands ≡ true
    → plain_name name ≡ true
    → IsToken (letter ∷ name) × (fourcc (letter ∷ name) ≡ ok (letter, name))
unfolding fourcc
fourcc-written letter (b ∷ c ∷ d ∷ []) typ ne known plain = (
  (cc, (ne, (ground (arith, plain), (ground (arith, plain), (ground (arith, plain), tt))))),
  rw (typ, known) refl,
)
fourcc-written letter (b ∷ c ∷ d ∷ e ∷ name) typ ne known plain = cc
fourcc-written letter _ typ ne known plain = cc

pub parse_type-Carries :
    (x letter : ℕ) (fields : HeaderFields)
    → x < b'B'
    → Carries letter fields
    → (parse_type letter ≡ ok letter) × (letter ≢ x)
unfolding parse_type
parse_type-Carries x letter (broadcast_header_fields sid) small h =
    (ground (arith, h), omega (arith, h))
parse_type-Carries x letter cih_header_fields small h = (ground (arith, h), ground (arith, h))
parse_type-Carries x letter (de_header_fields sid target) small h =
    (ground (arith, h), ground (arith, h))
parse_type-Carries x letter (feature_header_fields sid ops) small (h, proper) =
    (ground (arith, h), omega (arith, h))
parse_type-Carries x letter (udp_header_fields cid) small h = (ground (arith, h), omega (arith, h))

pub header_fields-written :
    (letter : ℕ) (fields : HeaderFields) (ps : Tokens)
    → Carries letter fields
    → ArePrinted fields
    → All IsToken (fields_tokens fields)
      × (header_fields letter (fields_tokens fields ++ ps) ≡ ok (fields, ps))
unfolding header_fields
header_fields-written letter (broadcast_header_fields sid) ps h v =
    let (tok, back) = text_of-IsPrinted sid v in ((tok, tt), rw (h, back) refl)
header_fields-written letter cih_header_fields ps h v = (tt, ground arith)
header_fields-written letter (de_header_fields sid target) ps h (v, w) =
    let (tok, back) = text_of-IsPrinted sid v in
    let (tok', back') = text_of-IsPrinted target w in
    (
      (tok, (tok', tt)),
      elim h [ inl d ↦ rw (d, back, back') refl | inr e ↦ rw (e, back, back') refl ],
    )
header_fields-written letter (feature_header_fields sid ops) ps (h, proper) (v, ne) =
    let (tok, back) = text_of-IsPrinted sid v in
    (
      (
        tok,
        ((features_text-ne-nil ops ne, features_text-Lacks space ops (omega arith) proper), tt),
      ),
      rw (h, back, parse_features-text ops proper) refl,
    )
header_fields-written letter (udp_header_fields cid) ps h v =
    let (tok, back) = text_of-IsPrinted cid v in ((tok, tt), rw (h, back) refl)

-- The tokens of a message.
abbrev pub message_tokens : ℕ → Bytes → HeaderFields → Tokens → Tokens
message_tokens letter name fields ps = (letter ∷ name) ∷ (fields_tokens fields ++ ps)

-- The message with its parameters as they stand in the line.
abbrev pub generic_message : ℕ → Bytes → HeaderFields → Tokens → Message
generic_message letter name fields ps = record {
  type = letter;
  command = name;
  header_fields = fields;
  content = some (generic (record { positional_params = ps; named_params = [] }));
}

known-plain : every plain_name known_commands ≡ true
known-plain = refl

-- A message of any type and of a known command other than STA, written with its header fields and
-- any parameters, is read back. The header fields are those of the type; their values are made of
-- bytes, one at least, and printed; the features have proper names, and there is one at least; the
-- parameters are not empty and have no space.
pub parse_message-line_of :
    (letter : ℕ) (name : Bytes) (fields : HeaderFields) (ps : Tokens)
    → Carries letter fields
    → ArePrinted fields
    → is_one_of name known_commands ≡ true
    → equal name command_sta ≡ false
    → All IsToken ps
    → (parse_message (new_message_reader (line_of (message_tokens letter name fields ps)))).0
      ≡ ok (generic_message letter name fields ps)
unfolding message content
parse_message-line_of letter name fields ps carries printed known other toks =
    let (typ, ne) = parse_type-Carries space letter fields (omega arith) carries in
    let (first, head) =
      fourcc-written letter name typ ne known
        (every-is_one_of plain_name name known_commands known-plain known) in
    let (middle, read) = header_fields-written letter fields ps carries printed in
    parse_message_line (line_of (message_tokens letter name fields ps))
    ∙ ap message (
        tokens-line_of (message_tokens letter name fields ps)
          (first, All-append IsToken (fields_tokens fields) ps middle toks))
    ∙ rw (head, read, other) refl
