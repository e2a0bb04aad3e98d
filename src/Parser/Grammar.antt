-- ===== src/Parser/Grammar.antt =====
-- protocol/parser/parse.go, parse_sta.go: what a line means, as functions of its tokens. There is
-- no reader here, no offset and no bound on a loop.
pub mod Meets
pub mod ContentRule
pub mod HeaderRule
pub mod Methods
use adcl.Prelude.{
  ℕ, Bool, ◌||◌, Bytes, List, [], ◌∷◌, ◌++◌, Option, none, some, Result, ok, err, panic, ◌>>=◌, eof,
  incomplete_message, invalid_named_parameter, invalid_message, invalid_command_name, invalid_type,
  if◌then◌else◌, ◌==◌, equal, length, take, drop,
}
use adcl.Encoding.AdcString.{decode_adc_string}
use adcl.Encoding.Base32Value.{Base32Value, parse_base32_value}
use adcl.Message.Params.{StringMap, map_set}
use adcl.Message.Status.{parse_status_code}
use adcl.Message.Header.{
  MessageType, Command, command_sta, parse_type, known_commands, HeaderFields,
  broadcast_header_fields, cih_header_fields, de_header_fields, feature_header_fields,
  udp_header_fields,
}
use adcl.Message.Header.Commands.{is_one_of}
use adcl.Message.Content.Sta.{StaContent}
use adcl.Message.Struct.{Content, sta, generic, Message}
use adcl.Parser.Features.{parse_features}
use adcl.Parser.MessageReader.{is_named}

abbrev pub Tokens : Type 0
Tokens = List Bytes

-- A parameter that must be there.
abbrev pub take_token : Tokens → Result (Bytes × Tokens)
take_token [] = err incomplete_message
take_token (t ∷ ts) = ok (t, ts)

abbrev pub take_base32 : Tokens → Result (Base32Value × Tokens)
take_base32 ts = do (t, rest) ← take_token ts; v ← parse_base32_value t; ok (v, rest)

-- The header fields by the letter of the type.
unfoldable pub header_fields : ℕ → Tokens → Result (HeaderFields × Tokens)
header_fields letter ts =
    if letter == b'B'
    then (do (sid, rest) ← take_base32 ts; ok (broadcast_header_fields sid, rest))
    else if letter == b'C' || letter == b'H' || letter == b'I'
    then ok (cih_header_fields, ts)
    else if letter == b'D' || letter == b'E'
    then (do
      (sid, rest) ← take_base32 ts
      (target, rest') ← take_base32 rest
      ok (de_header_fields sid target, rest'))
    else if letter == b'F'
    then (do
      (sid, rest) ← take_base32 ts
      (t, rest') ← take_token rest
      features ← parse_features t
      ok (feature_header_fields sid features, rest'))
    else if letter == b'U'
    then (do (cid, rest) ← take_base32 ts; ok (udp_header_fields cid, rest))
    else err invalid_type

-- Flags: the later of two with one name wins.
unfoldable pub flags : StringMap → Tokens → Result StringMap
flags m [] = ok m
flags m (t ∷ ts) =
    let rest = flags (map_set m (take 2 t) (drop 2 t)) ts in
    if is_named t then rest else err invalid_named_parameter

unfoldable pub sta_content : Tokens → Result StaContent
sta_content ts = do
  (code, rest) ← take_token ts
  status ← parse_status_code code
  (text, rest') ← take_token rest
  description ← decode_adc_string text
  fs ← flags [] rest'
  ok (record {
    code = status;
    code_str = [];
    description = description;
    description_str = [];
    flags = fs;
  })

-- Any other command keeps all that is left of the line as positional parameters.
unfoldable pub content : Command → Tokens → Result Content
content cmd ts =
    if equal cmd command_sta
    then (do c ← sta_content ts; ok (sta c))
    else ok (generic (record { positional_params = ts; named_params = [] }))

-- A fourcc is a type letter and one of the known commands.
unfoldable pub fourcc : Bytes → Result (MessageType × Command)
fourcc (a ∷ b ∷ c ∷ d ∷ []) = do
  typ ← parse_type a
  let name = b ∷ c ∷ d ∷ []
  if is_one_of name known_commands then ok (typ, name) else err invalid_command_name
fourcc _ = err invalid_message

-- The whole line.
unfoldable pub message : Tokens → Result Message
message ts = do
  (t, rest) ← take_token ts
  (typ, cmd) ← fourcc t
  (fields, rest') ← header_fields typ rest
  c ← content cmd rest'
  ok (record { type = typ; command = cmd; header_fields = fields; content = some c })
