-- ===== src/Parser/ReadMessage/Safe.antt =====
-- protocol/parser/parser.go: ReadMessage on any stream, call after call.
use adcl.Prelude.{
  take, ℕ, zero, suc, ◌≤◌, ◌-◌, ◌≡◌, refl, ap, ◌∙◌, false, true, [], ◌∷◌, Bytes, arith, length, All,
  Result, ok, err, panic, fuel_exhausted, Error,
}
use adcl.Stdlib.Bufio.{Reader}
use adcl.Message.Struct.{Message}
use adcl.Parser.ConnReader.{ConnReader, is_buffer_full, read_message_line}
use adcl.Parser.ConnReader.Lines.{connection}
use adcl.Parser.ConnReader.Outcomes.{
  is_reported, Outcome, first_line, cut_line, failed, read_message_line-OutcomeOf,
}
use adcl.Parser.ConnReader.Limits.{read_message_line-Next, read_message_line_end}
use adcl.Parser.Total.{returned, IsReturned, parse_message-IsReturned}
use adcl.Parser.ReadMessage.{parse_line, read_message}
use adcl.Parser.ReadMessage.Stream.{parser_of, read_messages}

reported-returned :
    (A : Type 0) (e : Error) → is_reported e ≡ true → returned {A = A} (err e) ≡ true
reported-returned A fuel_exhausted h = cc
reported-returned A _ h = refl

-- What ReadMessage leaves of the parser is what ReadMessageLine leaves of its reader.
parse_line-reader :
    (x : Result Bytes × ConnReader) → (parse_line x).1 ≡ record { conn_reader = x.1 }
unfolding parse_line
parse_line-reader (ok line, c) = refl
parse_line-reader (err e, c) = refl
parse_line-reader (panic, c) = refl

module _ (size : ℕ) (stop : Error) (line_buf : Bytes) (five : 5 ≤ size)
    (no_full : is_buffer_full stop ≡ false) (reported : is_reported stop ≡ true) where
  parse_line-IsReturned :
      {s : Bytes} {x : Result Bytes × Reader} (c : ConnReader)
      → Outcome size stop s x
      → IsReturned (parse_line (x.0, c)).0
  unfolding parse_line
  parse_line-IsReturned c (first_line w rest lacks e short) = parse_message-IsReturned w
  parse_line-IsReturned c (cut_line w rest lacks e held short) =
      parse_message-IsReturned (take (size - 1) w)
  parse_line-IsReturned c (failed e rest h moved) = record { holds = reported-returned Message e h }

  read_message-IsReturned :
      (s : Bytes) → IsReturned (read_message (parser_of size stop line_buf s)).0
  unfolding read_message
  read_message-IsReturned s =
      parse_line-IsReturned _
        ((read_message_line-OutcomeOf size stop line_buf s five no_full reported).0)

  read_message-Next :
      (s : Bytes)
      → (rest : Bytes) × (length rest ≤ length s - 1)
        × ((read_message (parser_of size stop line_buf s)).1 ≡ parser_of size stop line_buf rest)
  unfolding read_message
  read_message-Next s =
      let (rest, (moved, c)) = read_message_line-Next size stop line_buf five no_full reported s in
      (
        rest,
        moved,
        parse_line-reader (read_message_line (connection size stop line_buf s))
            ∙ ap (λ x. record { conn_reader = x }) c,
      )

  read_message_end :
      read_message (parser_of size stop line_buf []) ≡ (err stop, parser_of size stop line_buf [])
  unfolding read_message parse_line
  read_message_end = ap parse_line (read_message_line_end size stop line_buf five no_full reported)

  -- Whatever the stream holds, each of as many calls of ReadMessage as it has bytes gives a
  -- message or an error, without a panic or a loop that runs out of rounds, and they read all of
  -- it: a further call gives the error of the source and changes nothing. The buffer has room for
  -- five bytes, and the error of the source is an error of Go other than ErrBufferFull.
  pub read_messages-IsReturned :
      (n : ℕ) (s : Bytes)
      → length s ≤ n
      → All IsReturned (read_messages n (parser_of size stop line_buf s)).0
        × ((read_messages n (parser_of size stop line_buf s)).1 ≡ parser_of size stop line_buf [])
        × (read_message (read_messages n (parser_of size stop line_buf s)).1
            ≡ (err stop, parser_of size stop line_buf []))
  read_messages-IsReturned zero [] h = (tt, refl, read_message_end)
  read_messages-IsReturned zero (c ∷ s) h = absurd (omega (arith, h))
  read_messages-IsReturned (suc n) s h =
      let (rest, moved, next) = read_message-Next s in
      let (later, drained, end) = read_messages-IsReturned n rest (omega (arith, h, moved)) in
      rw next ((read_message-IsReturned s, later), drained, end)
