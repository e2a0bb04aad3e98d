-- ===== src/Parser/ReadMessage/Draft.antt =====
-- protocol/parser: messages as a peer that writes them has them, and their lines.
use adcl.Prelude.{ℕ, ◌<◌, ◌≡◌, ◌≢◌, true, false, Bytes, [], ◌++◌, length, All, equal, Result, ok}
use adcl.Stdlib.Strings.{Lacks}
use adcl.Message.Header.{HeaderFields, known_commands, command_sta}
use adcl.Message.Header.Commands.{is_one_of}
use adcl.Message.Struct.{Message}
use adcl.Parser.ConnReader.{eol, max_message_length}
use adcl.Parser.Grammar.{Tokens}
use adcl.Parser.Lexer.Shape.{IsToken}
use adcl.Parser.MessageReader.{is_named}
use adcl.Stdlib.Utf8.{valid_string}
use adcl.Message.Status.{StatusCode}
use adcl.Parser.RoundTrip.Status.{status_tokens, status_message}
use adcl.Parser.RoundTrip.{line_of, flag_map}
use adcl.Parser.RoundTrip.Sound.{fields_tokens, Carries}
use adcl.Parser.RoundTrip.Printed.{ArePrinted}
use adcl.Parser.RoundTrip.Written.{message_tokens, generic_message}

-- What a message carries behind its header: a status, or the parameters of another command.
pub data Body : Type 0 where
  other : Bytes → Tokens → Body
  status : StatusCode → Bytes → Tokens → Body

-- A message as its writer has it.
pub record Draft : Type 0 where
  pub letter : ℕ
  pub fields : HeaderFields
  pub body : Body

abbrev pub name_of : Body → Bytes
name_of (other name ps) = name
name_of (status st description fs) = command_sta

abbrev pub params_of : Body → Tokens
params_of (other name ps) = ps
params_of (status st description fs) = status_tokens st description fs

abbrev pub line : Draft → Bytes
line d = line_of (message_tokens d.letter (name_of d.body) d.fields (params_of d.body))

abbrev pub message_of : ℕ → HeaderFields → Body → Message
message_of letter fields (other name ps) = generic_message letter name fields ps
message_of letter fields (status st description fs) =
    status_message letter fields st description (flag_map [] fs)

abbrev pub received : Draft → Result Message
received d = ok (message_of d.letter d.fields d.body)

-- A known command other than STA, and parameters without a line end. A status has an error part
-- below 100, a description that is UTF-8 and not empty, and named parameters.
abbrev pub IsBody : Body → Type 0
IsBody (other name ps) =
    (is_one_of name known_commands ≡ true)
    × (equal name command_sta ≡ false)
    × All IsToken ps
    × All (Lacks eol) ps
IsBody (status st description fs) =
    (st.error < 100)
    × (valid_string description ≡ true)
    × (description ≢ [])
    × All IsToken fs
    × All (λ t. is_named t ≡ true) fs
    × All (Lacks eol) fs

-- A message by the rules of the protocol, with a token behind the command, in a line that the
-- buffer and the limit can hold.
abbrev pub IsSendable : ℕ → Draft → Type 0
IsSendable size d =
    Carries d.letter d.fields
    × ArePrinted d.fields
    × IsBody d.body
    × (fields_tokens d.fields ++ params_of d.body ≢ [])
    × (length (line d) < size)
    × (length (line d) < max_message_length)
