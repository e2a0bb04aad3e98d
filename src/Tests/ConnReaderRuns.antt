-- ===== src/Tests/ConnReaderRuns.antt =====
-- protocol/parser at concrete inputs: ConnReader and Parser.
use adcl.Prelude.{◌≡◌, refl, codes, Bytes, [], ◌∷◌, ◌++◌, ok, err, eof, invalid_command_name, arith}
use adcl.Stdlib.Bufio.{reader}
use adcl.Parser.ConnReader.{eol, validate_message, discard_line, read_message_line}
use adcl.Parser.ConnReader.Discard.{after_line, line_end, discard_line_lem}
use adcl.Parser.ConnReader.Lines.{connection, start_check, read_message_line_invalid}
use adcl.Parser.ConnReader.LongLines.{read_message_line_long}
use adcl.Parser.ConnReader.Outcomes.{OutcomeOf, read_message_line-OutcomeOf}
use adcl.Tests.{avoids-Lacks}

abbrev line : Bytes
line = codes "ISTA 000 Hello"

abbrev ping : Bytes
ping = codes "HSUP ADBASE"

-- The text of two lines, the last one cut off.
abbrev rest : Bytes
rest = ping ++ (eol ∷ codes "HSUP")

line-checked : start_check (line ++ (eol ∷ [])) ≡ ok tt
unfolding validate_message adcl.Message.Header.parse_type adcl.Encoding.is_upper_alpha
    adcl.Encoding.is_upper_alpha_num
line-checked = refl

abbrev bad_line : Bytes
bad_line = codes "Ista 000 Hello"

bad_line-checked : start_check (bad_line ++ (eol ∷ [])) ≡ err invalid_command_name
unfolding validate_message adcl.Message.Header.parse_type adcl.Encoding.is_upper_alpha
    adcl.Encoding.is_upper_alpha_num
bad_line-checked = refl

read_message_line_invalid_example :
    read_message_line (connection 32 eof [] (bad_line ++ (eol ∷ rest)))
    ≡ (err invalid_command_name, connection 32 eof [] (after_line rest))
read_message_line_invalid_example =
    read_message_line_invalid 32 eof [] bad_line rest invalid_command_name (omega arith) refl
      (avoids-Lacks eol bad_line refl) (omega arith) (omega arith) bad_line-checked

abbrev long_line : Bytes
long_line = codes "ISTA 000 Welcome\\sto\\sthe\\shub"

start-checked : start_check (codes "ISTA 000 Welcome") ≡ ok tt
unfolding validate_message adcl.Message.Header.parse_type adcl.Encoding.is_upper_alpha
    adcl.Encoding.is_upper_alpha_num
start-checked = refl

read_message_line_long_example :
    read_message_line (connection 16 eof [] (long_line ++ (eol ∷ rest))) ≡ (
      ok (codes "ISTA 000 Welcom"),
      connection 16 eof [] (codes "\\sto\\sthe\\shub" ++ (eol ∷ rest)),
    )
read_message_line_long_example =
    read_message_line_long 16 eof [] long_line rest (omega arith) (omega arith)
      (avoids-Lacks eol long_line refl) (omega arith) start-checked

discard_line_lem_example : discard_line (reader eol 16 eof (long_line ++ (eol ∷ rest))) ≡ (
  line_end eof (long_line ++ (eol ∷ rest)),
  reader eol 16 eof (after_line (long_line ++ (eol ∷ rest))),
)
discard_line_lem_example = discard_line_lem 16 eof (omega arith) refl (long_line ++ (eol ∷ rest))

read_message_line-OutcomeOf_example :
    OutcomeOf 16 eof []
      (long_line ++ (eol ∷ rest))
      (read_message_line (connection 16 eof [] (long_line ++ (eol ∷ rest))))
read_message_line-OutcomeOf_example =
    read_message_line-OutcomeOf 16 eof [] (long_line ++ (eol ∷ rest)) (omega arith) refl refl
