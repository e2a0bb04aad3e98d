-- ===== src/Parser/Parse.antt =====
-- protocol/parser/parse.go
use adcl.Prelude.{
  ℕ, zero, suc, not, Bytes, List, [], ◌∷◌, ◌++◌, none, some, Result, ok, err, panic, eof,
  fuel_exhausted, invalid_message, invalid_type, if◌then◌else◌, ◌==◌, equal, length, slice_from,
}
use adcl.Message.Header.{
  MessageType, type_broadcast, type_clientmessage, type_directmessage, type_echomessage,
  type_featurebroadcast, type_hubmessage, type_infomessage, type_udpmessage, parse_type, Command,
  command_sta, index, parse_command, HeaderFields, broadcast_header_fields, cih_header_fields,
  de_header_fields, feature_header_fields, udp_header_fields,
}
use adcl.Message.Content.Generic.{GenericContent}
use adcl.Message.Struct.{Content, sta, generic, Message}
use adcl.Parser.Positional
use adcl.Parser.Positional.{Positional}
use adcl.Parser.Features.{parse_features}
use adcl.Parser.MessageReader.{MessageReader, Read, pure, lift, ◌>>=◌, required, read_positional}
use adcl.Parser.Sta.{rounds, parse_sta_content}

-- Only here an io.EOF of the decoder would be replaced too.
unfoldable pub parse_broadcast_header_fields : Read HeaderFields
parse_broadcast_header_fields = do
  param ← required read_positional
  my_sid ← required (lift (Positional.value_base32_value param))
  pure (broadcast_header_fields my_sid)

unfoldable pub parse_cih_header_fields : Read HeaderFields
parse_cih_header_fields = pure cih_header_fields

unfoldable pub parse_de_header_fields : Read HeaderFields
parse_de_header_fields = do
  my_param ← required read_positional
  my_sid ← lift (Positional.value_base32_value my_param)
  target_param ← required read_positional
  target_sid ← lift (Positional.value_base32_value target_param)
  pure (de_header_fields my_sid target_sid)

unfoldable pub parse_feature_header_fields : Read HeaderFields
parse_feature_header_fields = do
  my_param ← required read_positional
  my_sid ← lift (Positional.value_base32_value my_param)
  param ← required read_positional
  features ← lift (parse_features (Positional.raw_value param))
  pure (feature_header_fields my_sid features)

unfoldable pub parse_udp_header_fields : Read HeaderFields
parse_udp_header_fields = do
  param ← required read_positional
  my_cid ← lift (Positional.value_base32_value param)
  pure (udp_header_fields my_cid)

unfoldable pub parse_header_fields : MessageType → Read HeaderFields
parse_header_fields typ =
    if typ == type_broadcast
    then parse_broadcast_header_fields
    else if typ == type_clientmessage
    then parse_cih_header_fields
    else if typ == type_directmessage
    then parse_de_header_fields
    else if typ == type_echomessage
    then parse_de_header_fields
    else if typ == type_featurebroadcast
    then parse_feature_header_fields
    else if typ == type_hubmessage
    then parse_cih_header_fields
    else if typ == type_infomessage
    then parse_cih_header_fields
    else if typ == type_udpmessage
    then parse_udp_header_fields
    else lift (err invalid_type)

-- The type and the command of a fourcc.
unfoldable pub parse_fourcc : Bytes → Read (MessageType × Command)
parse_fourcc fourcc = if not (length fourcc == 4) then lift (err invalid_message) else do
  first ← lift (index fourcc 0)
  typ ← lift (parse_type first)
  name ← lift (slice_from fourcc 1)
  command ← lift (parse_command name)
  pure (typ, command.0)

-- `Content` stays nil.
unfoldable pub parse_header : Read Message
unfolding parse_fourcc
parse_header = do
  fourcc ← required read_positional
  head ← parse_fourcc (Positional.raw_value fourcc)
  fields ← parse_header_fields head.0
  pure (record { type = head.0; command = head.1; header_fields = fields; content = none })

-- One round of the loop over the positional parameters, on what `ReadPositional` gave; `rest` is
-- the loop. io.EOF ends it without an error.
unfoldable pub positional_round :
    (List Bytes → Read (List Bytes))
    → List Bytes
    → Result Positional × MessageReader
    → Result (List Bytes) × MessageReader
positional_round rest params (ok p, m) = rest (params ++ (Positional.raw_value p ∷ [])) m
positional_round rest params (err eof, m) = (ok params, m)
positional_round rest params (err e, m) = (err e, m)
positional_round rest params (panic, m) = (panic, m)

-- The loop, with a bound on its rounds.
unfoldable pub read_positionals : ℕ → List Bytes → Read (List Bytes)
read_positionals zero params m = (err fuel_exhausted, m)
read_positionals (suc fuel) params m =
    positional_round (read_positionals fuel) params (read_positional m)

unfoldable pub parse_generic_content : Read GenericContent
parse_generic_content m =
    (do
      params ← read_positionals (rounds m) []
      pure (record { positional_params = params; named_params = [] }))
      m

unfoldable pub parse_content : Command → Read Content
parse_content cmd =
    if equal cmd command_sta
    then (do mes ← parse_sta_content; pure (sta mes))
    else (do mes ← parse_generic_content; pure (generic mes))

unfoldable pub parse_message : Read Message
parse_message = do
  mes ← parse_header
  content ← parse_content mes.command
  pure (record mes { content = some content })
