-- ===== src/Parser/ReadMessage/Stream.antt =====
-- protocol/parser/parser.go: the messages of a stream, one after another.
use mathlib.Core.List.{map}
use adcl.Prelude.{
  ℕ, zero, suc, ◌<◌, ◌≡◌, refl, ap, ◌∙◌, List, [], ◌∷◌, ◌++◌, append_assoc, Bytes, length, All,
  Result, ok, Error,
}
use adcl.Stdlib.Strings.{Lacks}
use adcl.Message.Struct.{Message}
use adcl.Parser.ConnReader.{eol, max_message_length}
use adcl.Parser.ConnReader.Lines.{connection, start_check, read_message_line_valid}
use adcl.Parser.Lexer.Tokens.{tokens}
use adcl.Parser.Grammar.{message}
use adcl.Parser.Grammar.HeaderRule.{parse_message_line}
use adcl.Parser.ReadMessage.{Parser, parse_line, read_message}

-- A line that ReadMessageLine gives back from a buffer of `size` bytes.
abbrev pub IsReadable : ℕ → Bytes → Type 0
IsReadable size w =
    Lacks eol w
    × (length w < size)
    × (length w < max_message_length)
    × (start_check (w ++ (eol ∷ [])) ≡ ok tt)

-- The text of a stream of lines.
abbrev pub lines_text : List Bytes → Bytes
lines_text [] = []
lines_text (w ∷ ws) = w ++ (eol ∷ lines_text ws)

-- `n` calls of ReadMessage.
abbrev pub read_messages : ℕ → Parser → List (Result Message) × Parser
read_messages zero p = ([], p)
read_messages (suc n) p =
    let (first, p1) = read_message p in
    let (others, p2) = read_messages n p1 in (first ∷ others, p2)

module _ (size : ℕ) (stop : Error) (line_buf : Bytes) where
  abbrev pub parser_of : Bytes → Parser
  parser_of s = record { conn_reader = connection size stop line_buf s }

  -- A readable line is read as the message that it means, and exactly it is read.
  pub read_message_lem :
      (w rest : Bytes)
      → IsReadable size w
      → read_message (parser_of (w ++ (eol ∷ rest))) ≡ (message (tokens w), parser_of rest)
  unfolding read_message parse_line
  read_message_lem w rest (h, room, short, good) =
      ap parse_line (read_message_line_valid size stop line_buf w rest h room short good)
      ∙ ap (λ m. (m, parser_of rest)) (parse_message_line w)

  -- As many calls of ReadMessage as there are readable lines give the meanings of the lines in
  -- their order, and leave what follows them.
  pub read_messages-lines_text :
      (ws : List Bytes) (rest : Bytes)
      → All (IsReadable size) ws
      → read_messages (length ws) (parser_of (lines_text ws ++ rest))
        ≡ (map (λ w. message (tokens w)) ws, parser_of rest)
  read_messages-lines_text [] rest hs = refl
  read_messages-lines_text (w ∷ ws) rest (h, hs) =
      rw
        (
          append_assoc w (eol ∷ lines_text ws) rest,
          read_message_lem w (lines_text ws ++ rest) h,
          read_messages-lines_text ws rest hs,
        )
        refl
