-- ===== src/Parser/ConnReader/Exact.antt =====
-- protocol/parser/conn_reader.go: ReadMessageLine on any stream, by the text of the stream alone.
use adcl.Prelude.{
  ◌>>=◌, ◌-◌, take, ℕ, ◌≤◌, ◌≡◌, refl, ap, ◌∙◌, sym, Bool, true, false, not, none, some, [], ◌∷◌,
  ◌++◌, Bytes, arith, ltb, leb, if◌then◌else◌, length, length-append, Result, ok, err, panic, Error,
  buffer_full, Bool-cases, inl, inr, message_too_long,
}
use adcl.Stdlib.Bufio.{Reader, reader, read_slice, found, full, ended, read_slice-cases}
use adcl.Parser.ConnReader.{
  without_eol, eol, max_message_length, is_buffer_full, is_eof, discard_line, fail_discarding,
  finish_line, after_check, with_reader, first_slice, read_message_line,
}
use adcl.Parser.ConnReader.Discard.{after_line, discard_line_lem}
use adcl.Parser.ConnReader.Lines.{
  connection, without_eol_lem, without_eol_full, start_check, check_start_held, check_start_full,
}
use adcl.Parser.ConnReader.NextLine.{
  unless, next_line, next_line_found, next_line_ended, next_line_full,
}
use adcl.Parser.ConnReader.Outcomes.{start_check-checked, checked}

module _ (size : ℕ) (stop : Error) (five : 5 ≤ size) (no_full : is_buffer_full stop ≡ false) where
  -- The bytes that are left, as a reader.
  abbrev reading : Result Bytes × Bytes → Result Bytes × Reader
  reading (line, rest) = (line, reader eol size stop rest)

  fail_discarding-reading :
      (e : Error) (s : Bytes)
      → fail_discarding e (reader eol size stop s) ≡ reading (err e, after_line s)
  fail_discarding-reading e s = rw (discard_line_lem size stop (omega (arith, five)) no_full s) refl

  discard_line_end :
      (b : Bool)
      → (if b then (discard_line (reader eol size stop [])).1 else reader eol size stop [])
        ≡ reader eol size stop []
  discard_line_end true =
      ap (λ x. x.1) (discard_line_lem size stop (omega (arith, five)) no_full [])
  discard_line_end false = refl

  after_check-unless :
      (buf rest line : Bytes) (check : Result {0} Unit)
      → checked check ≡ true
      → without_eol buf ≡ ok line
      → after_check [] (reader eol size stop rest) (check >>= λ _. ok (buf, none))
        ≡ reading (unless check (after_line rest) (ok line, rest))
  unfolding after_check finish_line
  after_check-unless buf rest line (ok _) h cut = ap (λ x. (x, reader eol size stop rest)) cut
  after_check-unless buf rest line (err e) h cut = fail_discarding-reading e rest
  after_check-unless buf rest line panic h cut = cc

  first_slice-next_line :
      (s : Bytes)
      → first_slice [] (read_slice eol (reader eol size stop s)) ≡ reading (next_line size stop s)
  unfolding first_slice
  first_slice-next_line s = elim (read_slice-cases eol size stop s) [
    | found w rest h room e slice ↦
        let same = sym (ap (next_line size stop) e ∙ next_line_found size stop w rest h room) in
        elim (Bool-cases (leb max_message_length (length w))) [
          | inl long ↦
              rw (slice, too_long w long)
                (fail_discarding-reading message_too_long rest ∙ ap reading (rw long at same))
          | inr short ↦
              rw (slice, fits w short)
                (ap (after_check [] (reader eol size stop rest))
                    (check_start_held (w ++ (eol ∷ [])))
                  ∙ after_check-unless (w ++ (eol ∷ [])) rest w (start_check (w ++ (eol ∷ [])))
                      (start_check-checked (w ++ (eol ∷ []))) (without_eol_lem w)
                  ∙ ap reading (rw short at same))
        ]
    | full w rest h held e slice ↦
        let same = sym (
          ap (next_line size stop) e
          ∙ next_line_full size stop w rest h held (omega (arith, five))) in
        elim (Bool-cases (ltb max_message_length size)) [
          | inl long ↦
              rw (slice, held, long)
                (fail_discarding-reading message_too_long rest ∙ ap reading (rw long at same))
          | inr short ↦
              rw (slice, held, short)
                (ap (after_check [] (reader eol size stop rest))
                    (check_start_full w (some buffer_full) (omega (arith, five, held)))
                  ∙ after_check-unless w rest (take (size - 1) w) (start_check w)
                      (start_check-checked w) (without_eol_full size w held (omega (arith, five)))
                  ∙ ap reading (rw short at same))
        ]
    | ended h room slice ↦
        rw (slice, no_full, discard_line_end (not (is_eof stop)))
          (ap reading (sym (next_line_ended size stop s h room)))
  ]
    where
      too_long :
          (w : Bytes)
          → leb max_message_length (length w) ≡ true
          → ltb max_message_length (length (w ++ (eol ∷ []))) ≡ true
      too_long w long = ground (arith, length-append w (eol ∷ []))

      fits :
          (w : Bytes)
          → leb max_message_length (length w) ≡ false
          → ltb max_message_length (length (w ++ (eol ∷ []))) ≡ false
      fits w short = ground (arith, length-append w (eol ∷ []))

-- Whatever the stream holds, the result of ReadMessageLine and what it leaves of the stream are those
-- that the text of the stream tells: a line that the buffer holds is returned without its end, if it
-- is shorter than the limit and its start passes the check, and costs the line behind it otherwise; a
-- line that fills the buffer is cut there if its start passes the check, with the loss of the last
-- byte of the buffer, and what it has behind it is left as the next line, and an error of it costs
-- only what it has behind it. The buffer has room for five bytes, and the error of the source is not
-- ErrBufferFull.
pub read_message_line-next_line :
    (size : ℕ) (stop : Error) (s : Bytes)
    → 5 ≤ size
    → is_buffer_full stop ≡ false
    → read_message_line (connection size stop [] s)
      ≡ ((next_line size stop s).0, connection size stop [] (next_line size stop s).1)
unfolding read_message_line
read_message_line-next_line size stop s five no_full =
    ap (with_reader (connection size stop [] s)) (first_slice-next_line size stop five no_full s)
