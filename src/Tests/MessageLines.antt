-- ===== src/Tests/MessageLines.antt =====
-- protocol/parser at concrete inputs: whole messages, written, read and told.
use adcl.Prelude.{
  invalid_message, List, inr, ◌≡◌, refl, codes, Bytes, [], ◌∷◌, ok, err, eof, arith, equal, ◌++◌,
  invalid_command_name, false, true, All,
}
use adcl.Encoding.Base32Value
use adcl.Encoding.Base32Value.{Base32Value, new_base32_value}
use adcl.Stdlib.Base32.{encode_to_string}
use adcl.Message.Header.{
  cih_header_fields, parse_type, HeaderFields, broadcast_header_fields, known_commands, command_sta,
}
use adcl.Message.Header.Commands.{is_one_of}
use adcl.Parser.Grammar.Methods.{AreAgreeing, parse_message-AreAgreeing}
use adcl.Parser.ConnReader.{eol, read_message_line, validate_message}
use adcl.Parser.ConnReader.Lines.{connection}
use adcl.Parser.ConnReader.Exact.{read_message_line-next_line}
use adcl.Parser.ReadMessage.Exact.{read_messages-meanings}
use adcl.Encoding.{is_upper_alpha, is_upper_alpha_num}
use adcl.Parser.Grammar.{Tokens, message}
use adcl.Parser.Lexer.{space}
use adcl.Parser.Lexer.Shape.{IsToken}
use adcl.Tests.{avoids-Lacks}
use adcl.Parser.Lexer.Tokens.{tokens}
use adcl.Parser.MessageReader.{new_message_reader}
use adcl.Parser.Parse.{parse_message}
use adcl.Parser.ReadMessage.{read_message}
use adcl.Parser.ReadMessage.Safe.{read_messages-IsReturned}
use adcl.Parser.ReadMessage.Stream.{parser_of, read_messages}
use adcl.Parser.RoundTrip.{line_of}
use adcl.Parser.RoundTrip.Sound.{Tells, parse_message-Tells}
use adcl.Parser.RoundTrip.Printed.{IsPrinted}
use adcl.Parser.RoundTrip.Written.{message_tokens, generic_message, parse_message-line_of}
use adcl.Parser.Total.{IsReturned}
use adcl.Stdlib.Utf8.{valid_string}
use adcl.Encoding.AdcString.{encoder_replace, encode_byte}
use adcl.Message.Params.{map_set}
use adcl.Message.Struct.{Message}
use adcl.Parser.MessageReader.{is_named}
use adcl.Message.Status.{StatusCode, code, recoverable}
use adcl.Parser.RoundTrip.{flag_map}
use adcl.Tests.{small-All}
use adcl.Parser.RoundTrip.Status.{status_tokens, status_message, parse_message-status_tokens}
use adcl.Parser.RoundTrip.Reported.{TellsStatus, parse_message-TellsStatus}
use adcl.Parser.ReadMessage.Draft.{other, status, Draft, line, received, IsSendable}
use adcl.Parser.ReadMessage.Sent.{read_messages-received}
use adcl.Parser.ReadMessage.Stream.{lines_text}
use mathlib.Core.List.{map}

abbrev text : Bytes
text = codes "ISTA 000 Hello\nIsta x\nHSUP ADBASE\nBINF AEBA NIuser DEabc\nIGPA x\n\nHSUP"

-- Behind the first two lines; the second is refused, and costs the third as well.
abbrev later : Bytes
later = codes "BINF AEBA NIuser DEabc\nIGPA x\n\nHSUP"

read_message_line-next_line_example :
    read_message_line (connection 16 eof [] (codes "Ista x\nHSUP ADBASE\n" ++ later))
    ≡ (err invalid_command_name, connection 16 eof [] later)
unfolding validate_message parse_type is_upper_alpha is_upper_alpha_num
read_message_line-next_line_example =
    read_message_line-next_line 16 eof (codes "Ista x\nHSUP ADBASE\n" ++ later) (omega arith) refl

-- A line that is read; one that is refused, and costs the next; the first bytes of one that is too
-- long for the buffer; what it has behind them, which is refused and costs the next; the empty line;
-- and one without an end.
read_messages-meanings_example : read_messages 6 (parser_of 16 eof [] text) ≡ (
  message (tokens (codes "ISTA 000 Hello"))
      ∷ err invalid_command_name
      ∷ message (tokens (codes "BINF AEBA NIuse"))
      ∷ err invalid_message
      ∷ message (tokens [])
      ∷ err eof
      ∷ [],
  parser_of 16 eof [] [],
)
unfolding validate_message parse_type is_upper_alpha is_upper_alpha_num
read_messages-meanings_example = read_messages-meanings 16 eof (omega arith) refl 6 text

read_messages-IsReturned_example :
    All IsReturned (read_messages 90 (parser_of 16 eof [] text)).0
    × ((read_messages 90 (parser_of 16 eof [] text)).1 ≡ parser_of 16 eof [] [])
    × (read_message (read_messages 90 (parser_of 16 eof [] text)).1
        ≡ (err eof, parser_of 16 eof [] []))
read_messages-IsReturned_example =
    read_messages-IsReturned 16 eof [] (omega arith) refl refl 90 text (omega arith)

abbrev sid : Base32Value
sid = record { raw = 1 ∷ 2 ∷ []; str_set = true; str = codes "AEBA" }

sid-IsPrinted : IsPrinted sid
unfolding Base32Value.string new_base32_value encode_to_string
sid-IsPrinted = ((omega arith, (omega arith, tt)), cc, refl)

abbrev header : HeaderFields
header = broadcast_header_fields sid

abbrev params : Tokens
params = codes "hi" ∷ codes "PMAEBA" ∷ []

params-AreTokens : All IsToken params
params-AreTokens = (
  (cc, avoids-Lacks space (codes "hi") refl),
  ((cc, avoids-Lacks space (codes "PMAEBA") refl), tt),
)

name-is_known : is_one_of (codes "MSG") known_commands ≡ true
unfolding equal
name-is_known = refl

name-is_other : equal (codes "MSG") command_sta ≡ false
unfolding equal
name-is_other = refl

parse_message-line_of_example :
    (parse_message
      (new_message_reader (line_of (message_tokens b'B' (codes "MSG") header params)))).0
    ≡ ok (generic_message b'B' (codes "MSG") header params)
parse_message-line_of_example =
    parse_message-line_of b'B' (codes "MSG") header params refl sid-IsPrinted name-is_known
      name-is_other params-AreTokens

abbrev one_line : Bytes
one_line = codes "BMSG AEBA hi PMAEBA"

reads_line :
    (parse_message (new_message_reader one_line)).0
    ≡ ok (generic_message b'B' (codes "MSG") header params)
unfolding Base32Value.string
reads_line =
    parse_message-line_of b'B' (codes "MSG") header params refl sid-IsPrinted name-is_known
      name-is_other params-AreTokens

parse_message-Tells_example :
    Tells (generic_message b'B' (codes "MSG") header params) (tokens one_line)
parse_message-Tells_example =
    parse_message-Tells one_line (generic_message b'B' (codes "MSG") header params) reads_line
      name-is_other

abbrev flag : Bytes
flag = codes "FCDSCH"

text-valid : valid_string (codes "Not found") ≡ true
unfolding valid_string
text-valid = refl

flag-is_named : is_named flag ≡ true
unfolding is_named is_upper_alpha is_upper_alpha_num
flag-is_named = refl

abbrev not_found : StatusCode
not_found = record { severity = recoverable; error = 42 }

parse_message-status_tokens_example :
    (parse_message (
      new_message_reader (
        line_of (
          message_tokens b'B' command_sta header
            (status_tokens not_found (codes "Not found") (flag ∷ [])))))).0
    ≡ ok (status_message b'B' header not_found (codes "Not found") (flag_map [] (flag ∷ [])))
parse_message-status_tokens_example =
    parse_message-status_tokens b'B' not_found (codes "Not found") header (flag ∷ []) refl
      sid-IsPrinted (omega arith) text-valid (cc) ((cc, avoids-Lacks space flag refl), tt)
      (flag-is_named, tt)

abbrev status_line : Bytes
status_line = codes "BSTA AEBA 142 Not\\sfound FCDSCH"

name-is_status : equal command_sta command_sta ≡ true
unfolding equal
name-is_status = refl

-- The message that the line holds.
abbrev status_read : Message
status_read =
    status_message b'B' header not_found (codes "Not found") ((codes "FC", codes "DSCH") ∷ [])

reads_status : (parse_message (new_message_reader status_line)).0 ≡ ok status_read
unfolding encoder_replace encode_byte Base32Value.string map_set equal code
reads_status =
    parse_message-status_tokens b'B' not_found (codes "Not found") header (flag ∷ []) refl
      sid-IsPrinted (omega arith) text-valid (cc) ((cc, avoids-Lacks space flag refl), tt)
      (flag-is_named, tt)

parse_message-TellsStatus_example : TellsStatus status_read (tokens status_line)
parse_message-TellsStatus_example =
    parse_message-TellsStatus status_line status_read (small-All status_line refl) reads_status
      name-is_status

parse_message-AreAgreeing_example : AreAgreeing status_read
parse_message-AreAgreeing_example = parse_message-AreAgreeing status_line status_read reads_status

abbrev drafts : List Draft
drafts =
    record { letter = b'B'; fields = header; body = other (codes "MSG") params }
    ∷ record {
      letter = b'I';
      fields = cih_header_fields;
      body = status not_found (codes "Not found") (flag ∷ []);
    }
    ∷ []

drafts-IsSendable : All (IsSendable 64) drafts
unfolding Base32Value.string encoder_replace encode_byte
drafts-IsSendable = (
  (
    refl,
    sid-IsPrinted,
    (
      name-is_known,
      name-is_other,
      params-AreTokens,
      (avoids-Lacks eol (codes "hi") refl, (avoids-Lacks eol (codes "PMAEBA") refl, tt)),
    ),
    cc,
    omega arith,
    omega arith,
  ),
  (
    (
      inr (inr refl),
      tt,
      (
        omega arith,
        text-valid,
        (cc),
        ((cc, avoids-Lacks space flag refl), tt),
        (flag-is_named, tt),
        (avoids-Lacks eol flag refl, tt),
      ),
      cc,
      omega arith,
      omega arith,
    ),
    tt,
  ),
)

read_messages-received_example :
    read_messages 2 (parser_of 64 eof [] (lines_text (map line drafts) ++ later))
    ≡ (map received drafts, parser_of 64 eof [] later)
read_messages-received_example = read_messages-received 64 eof [] drafts later drafts-IsSendable
