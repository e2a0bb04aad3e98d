-- ===== src/Parser/ConnReader.antt =====
-- protocol/parser/conn_reader.go: ConnReader, which reads the line of a message from a
-- bufio.Reader.
pub mod Discard
pub mod Exact
pub mod NextLine
pub mod Limits
pub mod Lines
pub mod LongLines
pub mod Outcomes
use adcl.Prelude.{
  ℕ, zero, suc, ◌+◌, ◌-◌, Bool, true, false, not, ◌&&◌, Option, none, some, List, [], ◌∷◌, ◌++◌,
  Bytes, codes, ◌==◌, ltb, leb, if◌then◌else◌, length, take, Result, ok, err, panic, ◌>>=◌, Error,
  eof, buffer_full, invalid_message, message_too_long, invalid_command_name, fuel_exhausted,
}
use adcl.Stdlib.Bufio.{Reader, Slice, read_slice}
use adcl.Encoding.{is_upper_alpha, is_upper_alpha_num}
use adcl.Message.Header.{MessageType, parse_type}

abbrev pub eol : ℕ
eol = b'\n'

abbrev pub space : ℕ
space = b' '

-- 16 << 10
abbrev pub max_message_length : ℕ
max_message_length = 16384

-- `line_buf` is what the field lineBuf shows: its bytes up to its length, not its capacity.
pub record ConnReader : Type 0 where
  pub r : Reader
  pub line_buf : Bytes

abbrev pub new_conn_reader : Reader → ConnReader
new_conn_reader reader = record { r = reader; line_buf = [] }

abbrev pub reset : ConnReader → Reader → ConnReader
reset c reader = record c { r = reader }

-- `err != io.EOF`, `err != bufio.ErrBufferFull` for a non-nil error.
abbrev pub is_eof : Error → Bool
is_eof eof = true
is_eof _ = false

abbrev pub is_buffer_full : Error → Bool
is_buffer_full buffer_full = true
is_buffer_full _ = false

-- One round of the loop of discardLine, on what ReadSlice gave; `again` is the loop.
unfoldable pub discard_round :
    (Reader → Result {0} Unit × Reader) → Slice × Reader → Result {0} Unit × Reader
discard_round again ((buf, none), r) = (ok tt, r)
discard_round again ((buf, some e), r) = if is_buffer_full e then again r else (err e, r)

-- The loop, with a bound on its rounds.
unfoldable pub discard_loop : ℕ → Reader → Result {0} Unit × Reader
discard_loop zero r = (err fuel_exhausted, r)
discard_loop (suc fuel) r = discard_round (discard_loop fuel) (read_slice eol r)

-- A round that does not end the loop reads a byte at least, so one round more than there are
-- bytes is enough.
abbrev pub rounds : Reader → ℕ
rounds r = suc (length r.input)

unfoldable pub discard_line : Reader → Result {0} Unit × Reader
discard_line r = discard_loop (rounds r) r

-- The type, the command and the space of a message.
unfoldable pub validate_message : Bytes → Result {0} Unit
validate_message (b0 ∷ b1 ∷ b2 ∷ b3 ∷ b4 ∷ _) =
    if not (b4 == space) then err invalid_message else do
      _ ← parse_type b0
      if is_upper_alpha b1 && is_upper_alpha_num b2 && is_upper_alpha_num b3
          then ok tt
          else err invalid_command_name
validate_message _ = err invalid_message

-- `buf[:len(buf)-1]`, the line without its delimiter.
abbrev pub without_eol : Bytes → Result Bytes
without_eol [] = panic
without_eol (b ∷ bs) = ok (take (length bs) (b ∷ bs))

-- `return` with an error after `_ = c.discardLine()`.
abbrev pub fail_discarding : Error → Reader → Result Bytes × Reader
fail_discarding e r = (err e, (discard_line r).1)

-- The loop's check of a ReadSlice that failed, or that gave a nil error: both leave the loop and
-- return the error as it is (a nil error beside the empty line), only a full buffer goes on.
unfoldable pub collect_slice :
    (Bytes → Bytes → Reader → Result Bytes × Reader)
    → Bytes
    → Slice × Reader
    → Result Bytes × Reader
collect_slice again line_buf ((buf, none), r) = (ok [], (discard_line r).1)
collect_slice again line_buf ((buf, some e), r) =
    if not (is_buffer_full e)
    then (err e, if not (is_eof e) then (discard_line r).1 else r)
    else if ltb max_message_length (length line_buf + length buf)
    then fail_discarding message_too_long r
    else again line_buf buf r

-- The loop of ReadMessageLine, entered with the error ErrBufferFull, which a buffer of five bytes or
-- more does not leave behind the check of the start. It goes on with that error only, so the test
-- `err == nil` at its head never holds.
unfoldable pub collect_line : ℕ → Bytes → Bytes → Reader → Result Bytes × Reader
collect_line zero line_buf buf r = (err fuel_exhausted, r)
collect_line (suc fuel) line_buf buf r =
    collect_slice (collect_line fuel) (line_buf ++ buf) (read_slice eol r)

-- The fast path, where `err` is nil, and the loop.
unfoldable pub finish_line : Bytes → Slice × Reader → Result Bytes × Reader
finish_line line_buf ((buf, none), r) = (without_eol buf, r)
finish_line line_buf ((buf, some e), r) = collect_line (rounds r) line_buf buf r

-- `if len(buf) >= 5` and the check of the first bytes, on the bytes and on `err`. The check assigns
-- to `err`: if the bytes pass it, `err` is nil behind it, also where it was ErrBufferFull.
unfoldable pub check_start : Slice → Result Slice
check_start (buf, e) =
    if leb 5 (length buf) then (validate_message buf >>= λ _. ok (buf, none)) else ok (buf, e)

unfoldable pub after_check : Bytes → Reader → Result Slice → Result Bytes × Reader
after_check line_buf r (ok slice) = finish_line line_buf (slice, r)
after_check line_buf r (err e) = fail_discarding e r
after_check line_buf r panic = (panic, r)

-- The checks before the line is returned, on what the first ReadSlice gave.
unfoldable pub first_slice : Bytes → Slice × Reader → Result Bytes × Reader
first_slice line_buf ((buf, none), r) =
    if ltb max_message_length (length buf)
    then fail_discarding message_too_long r
    else after_check line_buf r (check_start (buf, none))
first_slice line_buf ((buf, some e), r) =
    if not (is_buffer_full e)
    then (err e, if not (is_eof e) then (discard_line r).1 else r)
    else if ltb max_message_length (length buf)
    then fail_discarding message_too_long r
    else after_check line_buf r (check_start (buf, some e))

abbrev pub with_reader : ConnReader → Result Bytes × Reader → Result Bytes × ConnReader
with_reader c (line, r) = (line, record c { r = r })

-- lineBuf is only ever set to a slice of no bytes (lineBuf[0:0]) and starts as nil, so that what
-- it shows is left as it is.
unfoldable pub read_message_line : ConnReader → Result Bytes × ConnReader
read_message_line c = with_reader c (first_slice c.line_buf (read_slice eol c.r))
