-- ===== src/Parser/ConnReader/Limits.antt =====
-- protocol/parser/conn_reader.go: the end of a stream that is read call after call.
use adcl.Prelude.{
  ℕ, zero, suc, ◌≤◌, ◌≡◌, refl, ap, ◌∙◌, false, true, not, [], ◌∷◌, Bytes, length-append, arith,
  length, Result, err, Error,
}
use adcl.Stdlib.Bufio.{reader, Reader, read_slice_end}
use adcl.Parser.ConnReader.{
  ConnReader, eol, is_buffer_full, is_eof, first_slice, with_reader, read_message_line,
}
use adcl.Parser.ConnReader.Lines.{connection}
use adcl.Parser.ConnReader.Outcomes.{
  is_reported, Moved, Outcome, first_line, cut_line, failed, discard_line_empty,
  read_message_line-OutcomeOf,
}

-- A client that calls ReadMessageLine n times, whatever the calls give.
abbrev pub read_lines : ℕ → ConnReader → ConnReader
read_lines zero c = c
read_lines (suc n) c = read_lines n ((read_message_line c).1)

-- The connection after a call: the same one, further in its stream.
abbrev pub Next : ℕ → Error → Bytes → Bytes → ConnReader → Type 0
Next size stop line_buf s c =
    (rest : Bytes) × (Moved size stop s rest × (c ≡ connection size stop line_buf rest))

Outcome-reader :
    {size : ℕ} {stop : Error} {s : Bytes} {x : Result Bytes × Reader}
    → 5 ≤ size
    → Outcome size stop s x
    → (rest : Bytes) × (Moved size stop s rest × (x.1 ≡ reader eol size stop rest))
Outcome-reader five (first_line w rest lacks e short) =
    (rest, (omega (arith, ap length e, length-append w (eol ∷ rest)), refl))
Outcome-reader five (cut_line w rest lacks e held short) =
    (rest, (omega (arith, five, held, ap length e, length-append w rest), refl))
Outcome-reader five (failed e rest reported moved) = (rest, (moved, refl))

module _ (size : ℕ) (stop : Error) (line_buf : Bytes) (five : 5 ≤ size)
    (no_full : is_buffer_full stop ≡ false) (reported : is_reported stop ≡ true) where
  pub read_message_line-Next :
      (s : Bytes)
      → Next size stop line_buf s ((read_message_line (connection size stop line_buf s)).1)
  unfolding read_message_line
  read_message_line-Next s =
      let next =
        Outcome-reader five
          ((read_message_line-OutcomeOf size stop line_buf s five no_full reported).0) in
      (next.0, (next.1.0, ap (λ x. record { r = x; line_buf = line_buf }) (next.1.1)))

  read_lines_drained :
      (n : ℕ) (s : Bytes)
      → length s ≤ n
      → read_lines n (connection size stop line_buf s) ≡ connection size stop line_buf []
  read_lines_drained zero [] h = refl
  read_lines_drained zero (c ∷ s) h = absurd (omega (arith, h))
  read_lines_drained (suc n) s h =
      let next = read_message_line-Next s in
      ap (read_lines n) (next.1.1) ∙ read_lines_drained n (next.0) (omega (arith, h, next.1.0))

  pub read_message_line_end :
      read_message_line (connection size stop line_buf [])
      ≡ (err stop, connection size stop line_buf [])
  unfolding read_message_line first_slice
  read_message_line_end =
      ap (λ x. with_reader (connection size stop line_buf []) (first_slice line_buf x))
        (read_slice_end eol size stop [] tt (omega (arith, five)))
      ∙ rw (no_full, discard_line_empty size stop [] five no_full reported (not (is_eof stop))) refl

  -- Whatever the stream holds, as many calls of ReadMessageLine as it has bytes bring a client to
  -- its end, where a further call gives the error of the source and changes nothing, if the buffer
  -- has room for five bytes and that error is an error of Go other than ErrBufferFull.
  read_lines-end :
      (n : ℕ) (s : Bytes)
      → length s ≤ n
      → read_message_line (read_lines n (connection size stop line_buf s))
        ≡ (err stop, connection size stop line_buf [])
  read_lines-end n s h = ap read_message_line (read_lines_drained n s h) ∙ read_message_line_end
