-- ===== src/Parser/ConnReader/LongLines.antt =====
-- protocol/parser/conn_reader.go: a line that the buffer of the reader cannot hold.
use adcl.Prelude.{
  ℕ, ◌≤◌, ◌-◌, ◌≡◌, refl, ap, ◌∙◌, false, ◌∷◌, ◌++◌, Bytes, arith, ltb, length, drop, take,
  length-take, take-append-drop, sym, ok, some, Error, buffer_full,
}
use adcl.Stdlib.Strings.{Lacks}
use adcl.Stdlib.Bufio.{read_slice_full, take_before}
use adcl.Parser.ConnReader.{
  eol, max_message_length, finish_line, after_check, with_reader, first_slice, read_message_line,
}
use adcl.Parser.ConnReader.Lines.{connection, start_check, check_start_full, without_eol_full}

-- A line whose first bytes fill the buffer, within the limit and with a start that passes the check,
-- is cut: the bytes of the buffer without the last one are returned as a line, without an error, that
-- last byte is lost, and what the line has behind it is left to be read as the next line. The buffer
-- has room for five bytes.
pub read_message_line_long :
    (size : ℕ) (stop : Error) (line_buf w rest : Bytes)
    → 5 ≤ size
    → size ≤ max_message_length
    → Lacks eol w
    → size ≤ length w
    → start_check (take size w) ≡ ok tt
    → read_message_line (connection size stop line_buf (w ++ (eol ∷ rest)))
      ≡ (ok (take (size - 1) w), connection size stop line_buf (drop size w ++ (eol ∷ rest)))
unfolding read_message_line first_slice after_check finish_line
read_message_line_long size stop line_buf w rest five short h long good =
    let held : length (take size w) ≡ size = length-take size w ∙ omega arith in
    let front : take (size - 1) (take size w) ≡ take (size - 1) w =
      sym (take_before (size - 1) (take size w) (drop size w) (omega (arith, held)))
      ∙ ap (take (size - 1)) (take-append-drop size w) in
    let fits : ltb max_message_length (length (take size w)) ≡ false = ground (arith, held) in
    ap (λ x. with_reader (connection size stop line_buf rest) (first_slice line_buf x))
      (read_slice_full eol size stop w (eol ∷ rest) h long)
    ∙ rw
        (
          sym front,
          fits,
          check_start_full (take size w) (some buffer_full) (omega (arith, held)),
          good,
          without_eol_full size (take size w) held (omega arith),
        )
        refl
