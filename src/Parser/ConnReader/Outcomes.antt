-- ===== src/Parser/ConnReader/Outcomes.antt =====
-- protocol/parser/conn_reader.go: the ways in which ReadMessageLine ends.
use adcl.Prelude.{
  ◌>>=◌, take, ℕ, ◌-◌, ◌<◌, ◌≤◌, ◌≡◌, refl, ap, Bool, true, false, not, none, some, [], ◌∷◌, ◌++◌,
  Bytes, arith, ltb, if◌then◌else◌, length, length-append, Result, ok, err, panic, Error,
  buffer_full, Bool-cases, inl, inr, fuel_exhausted, message_too_long,
}
use adcl.Stdlib.Strings.{Lacks}
use adcl.Stdlib.Bufio.{Reader, reader, read_slice, found, full, ended, read_slice-cases}
use adcl.Parser.ConnReader.{
  without_eol, validate_message, ConnReader, eol, max_message_length, is_buffer_full, is_eof,
  discard_line, fail_discarding, finish_line, after_check, first_slice, read_message_line,
}
use adcl.Parser.ConnReader.Discard.{after_line, length-after_line, discard_line_lem}
use adcl.Parser.ConnReader.Lines.{
  connection, without_eol_lem, without_eol_full, start_check, check_start_held, check_start_full,
}
use adcl.Message.Header.Commands.{parse_type_lem}

-- An error of the code or of the source, not the bound of a loop of the model.
abbrev pub is_reported : Error → Bool
is_reported fuel_exhausted = false
is_reported _ = true

-- The check of the start gives nothing but an error that it reports.
abbrev pub checked : Result {0} Unit → Bool
checked (ok _) = true
checked (err e) = is_reported e
checked panic = false

validate_message-checked : (buf : Bytes) → checked (validate_message buf) ≡ true
unfolding validate_message
validate_message-checked (b0 ∷ b1 ∷ b2 ∷ b3 ∷ b4 ∷ buf) = rw (parse_type_lem b0) (ground arith)
validate_message-checked _ = ground arith

pub start_check-checked : (buf : Bytes) → checked (start_check buf) ≡ true
start_check-checked buf = ground (arith, validate_message-checked buf)

module _ (size : ℕ) (stop : Error) (s0 : Bytes) where
  -- The stream has moved on, if there was anything in it.
  abbrev pub Moved : Bytes → Type 0
  Moved rest = length rest ≤ length s0 - 1

  -- The first line of the stream, exactly read; the bytes of a full buffer without the last, of a line
  -- that goes on behind them; or an error.
  pub data Outcome : Result Bytes × Reader → Type 0 where
    first_line :
        (w rest : Bytes)
        → Lacks eol w
        → s0 ≡ w ++ (eol ∷ rest)
        → length w < max_message_length
        → Outcome (ok w, reader eol size stop rest)
    cut_line :
        (w rest : Bytes)
        → Lacks eol w
        → s0 ≡ w ++ rest
        → length w ≡ size
        → size ≤ max_message_length
        → Outcome (ok (take (size - 1) w), reader eol size stop rest)
    failed :
        (e : Error) (rest : Bytes)
        → is_reported e ≡ true
        → Moved rest
        → Outcome (err e, reader eol size stop rest)

  module _ (five : 5 ≤ size) (no_full : is_buffer_full stop ≡ false)
      (reported : is_reported stop ≡ true) where
    fail_discarding-Outcome :
        (e : Error) (s : Bytes)
        → is_reported e ≡ true
        → Moved s
        → Outcome (fail_discarding e (reader eol size stop s))
    fail_discarding-Outcome e s h moved =
        rw (discard_line_lem size stop (omega (arith, five)) no_full s)
          (failed e (after_line s) h (omega (arith, moved, length-after_line s)))

    -- At the end of the stream nothing is left to discard.
    pub discard_line_empty :
        (b : Bool)
        → (if b then (discard_line (reader eol size stop [])).1 else reader eol size stop [])
          ≡ reader eol size stop []
    discard_line_empty true =
        ap (λ x. x.1) (discard_line_lem size stop (omega (arith, five)) no_full [])
    discard_line_empty false = refl

    after_check-Outcome :
        (line_buf buf s : Bytes) (check : Result {0} Unit)
        → checked check ≡ true
        → Moved s
        → Outcome (without_eol buf, reader eol size stop s)
        → Outcome (after_check line_buf (reader eol size stop s) (check >>= λ _. ok (buf, none)))
    unfolding after_check finish_line
    after_check-Outcome line_buf buf s (ok _) h moved done = done
    after_check-Outcome line_buf buf s (err e) h moved done = fail_discarding-Outcome e s h moved
    after_check-Outcome line_buf buf s panic h moved done = cc

    first_slice-Outcome :
        (line_buf : Bytes)
        → Outcome (first_slice line_buf (read_slice eol (reader eol size stop s0)))
    unfolding first_slice
    first_slice-Outcome line_buf = elim (read_slice-cases eol size stop s0) [
      | found w rest h room e slice ↦
          elim (Bool-cases (ltb max_message_length (length (w ++ (eol ∷ []))))) [
            | inl long ↦
                rw (slice, long)
                  (fail_discarding-Outcome message_too_long rest refl
                    (omega (arith, ap length e, length-append w (eol ∷ rest))))
            | inr fits ↦
                rw (slice, fits, check_start_held (w ++ (eol ∷ [])))
                  (after_check-Outcome line_buf (w ++ (eol ∷ [])) rest
                    (start_check (w ++ (eol ∷ []))) (start_check-checked (w ++ (eol ∷ [])))
                    (omega (arith, ap length e, length-append w (eol ∷ rest)))
                    (rw (without_eol_lem w)
                      (first_line w rest h e (ground (arith, fits, length-append w (eol ∷ []))))))
          ]
      | full w rest h held e slice ↦ elim (Bool-cases (ltb max_message_length (length w))) [
        | inl long ↦
            rw (slice, long)
              (fail_discarding-Outcome message_too_long rest refl
                (omega (arith, held, five, ap length e, length-append w rest)))
        | inr fits ↦
            rw (slice, fits, check_start_full w (some buffer_full) (omega (arith, held, five)))
              (after_check-Outcome line_buf w rest (start_check w) (start_check-checked w)
                (omega (arith, held, five, ap length e, length-append w rest))
                (rw (without_eol_full size w held (omega (arith, five)))
                  (cut_line w rest h e held (ground (arith, fits, held)))))
      ]
      | ended h room slice ↦
          rw (slice, no_full, discard_line_empty (not (is_eof stop)))
            (failed stop [] reported (omega arith))
    ]

-- The state of the connection beside the outcome for its reader.
abbrev pub OutcomeOf : ℕ → Error → Bytes → Bytes → Result Bytes × ConnReader → Type 0
OutcomeOf size stop line_buf s (line, c) = Outcome size stop s (line, c.r) × (c.line_buf ≡ line_buf)

-- Whatever the stream holds, if the buffer has room for five bytes and the error of the source is an
-- error of Go other than ErrBufferFull, ReadMessageLine ends, without a panic, in one of three ways: it
-- gives the first line of the stream, shorter than the limit, and has read exactly that line; it gives
-- the bytes of a full buffer but the last, of a line that does not end in them, and has read exactly
-- the buffer; or it gives an error of the code or of the source. In each way it has read a byte, if
-- there was one, and the field lineBuf is as before.
pub read_message_line-OutcomeOf :
    (size : ℕ) (stop : Error) (line_buf s : Bytes)
    → 5 ≤ size
    → is_buffer_full stop ≡ false
    → is_reported stop ≡ true
    → OutcomeOf size stop line_buf s (read_message_line (connection size stop line_buf s))
unfolding read_message_line
read_message_line-OutcomeOf size stop line_buf s five no_full reported =
    (first_slice-Outcome size stop s five no_full reported line_buf, refl)
