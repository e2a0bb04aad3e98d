-- ===== src/Parser/ReadMessage.antt =====
-- protocol/parser/parser.go: Parser, which reads a line from the stream and parses it.
pub mod Stream
pub mod Safe
pub mod Draft
pub mod Sent
pub mod Exact
use adcl.Prelude.{Result, ok, err, panic, Bytes}
use adcl.Stdlib.Bufio.{Reader}
use adcl.Message.Struct.{Message}
use adcl.Parser.MessageReader.{new_message_reader}
use adcl.Parser.ConnReader
use adcl.Parser.ConnReader.{ConnReader, new_conn_reader, read_message_line}
use adcl.Parser.Parse.{parse_message}

pub record Parser : Type 0 where
  pub conn_reader : ConnReader

abbrev pub new : Reader → Parser
new r = record { conn_reader = new_conn_reader r }

abbrev pub reset : Parser → Reader → Parser
reset p r = record p { conn_reader = ConnReader.reset p.conn_reader r }

-- ReadMessage after the line, or the error that came in its place.
unfoldable pub parse_line : Result Bytes × ConnReader → Result Message × Parser
parse_line (ok line, c) = ((parse_message (new_message_reader line)).0, record { conn_reader = c })
parse_line (err e, c) = (err e, record { conn_reader = c })
parse_line (panic, c) = (panic, record { conn_reader = c })

unfoldable pub read_message : Parser → Result Message × Parser
read_message p = parse_line (read_message_line p.conn_reader)
