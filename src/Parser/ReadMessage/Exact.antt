-- ===== src/Parser/ReadMessage/Exact.antt =====
-- protocol/parser/parser.go: the messages of any stream, by the text of the stream alone.
use adcl.Prelude.{
  ℕ, zero, suc, ◌≤◌, ◌≡◌, refl, ap, ◌∙◌, false, List, [], ◌∷◌, Bytes, Result, ok, err, panic, Error,
}
use adcl.Message.Struct.{Message}
use adcl.Parser.ConnReader.{is_buffer_full}
use adcl.Parser.ConnReader.Lines.{connection}
use adcl.Parser.ConnReader.NextLine.{next_line}
use adcl.Parser.ConnReader.Exact.{read_message_line-next_line}
use adcl.Parser.Lexer.Tokens.{tokens}
use adcl.Parser.Grammar.{message}
use adcl.Parser.Grammar.HeaderRule.{parse_message_line}
use adcl.Parser.ReadMessage.{parse_line, read_message}
use adcl.Parser.ReadMessage.Stream.{parser_of, read_messages}

-- The meaning of a line, or the error that came in its place.
abbrev pub meaning : Result Bytes → Result Message
meaning (ok w) = message (tokens w)
meaning (err e) = err e
meaning panic = panic

-- The meanings of the next lines, and what is left behind them.
abbrev pub meanings : ℕ → Error → ℕ → Bytes → List (Result Message) × Bytes
meanings size stop zero s = ([], s)
meanings size stop (suc n) s =
    let (line, rest) = next_line size stop s in
    let (later, end) = meanings size stop n rest in (meaning line ∷ later, end)

module _ (size : ℕ) (stop : Error) (five : 5 ≤ size) (no_full : is_buffer_full stop ≡ false) where
  parse_line-meaning :
      (line : Result Bytes) (rest : Bytes)
      → parse_line (line, connection size stop [] rest)
        ≡ (meaning line, parser_of size stop [] rest)
  unfolding parse_line
  parse_line-meaning (ok w) rest = ap (λ m. (m, parser_of size stop [] rest)) (parse_message_line w)
  parse_line-meaning (err e) rest = refl
  parse_line-meaning panic rest = refl

  read_message-meaning :
      (s : Bytes)
      → read_message (parser_of size stop [] s)
        ≡ (meaning (next_line size stop s).0, parser_of size stop [] (next_line size stop s).1)
  unfolding read_message
  read_message-meaning s =
      ap parse_line (read_message_line-next_line size stop s five no_full)
      ∙ parse_line-meaning (next_line size stop s).0 (next_line size stop s).1

  -- Successive calls of ReadMessage on any stream give the meanings of the lines that its text
  -- tells, and of the errors in their place, and leave what these lines leave. The buffer has room
  -- for five bytes, and the error of the source is not ErrBufferFull.
  pub read_messages-meanings :
      (n : ℕ) (s : Bytes)
      → read_messages n (parser_of size stop [] s)
        ≡ ((meanings size stop n s).0, parser_of size stop [] (meanings size stop n s).1)
  read_messages-meanings zero s = refl
  read_messages-meanings (suc n) s =
      rw (read_message-meaning s, read_messages-meanings n (next_line size stop s).1) refl
