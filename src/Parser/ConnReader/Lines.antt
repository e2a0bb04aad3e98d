-- ===== src/Parser/ConnReader/Lines.antt =====
-- protocol/parser/conn_reader.go: which lines ReadMessageLine gives, and what it leaves of the
-- stream.
use adcl.Prelude.{
  Result, Option, none, leb, ◌>>=◌, ◌≤◌, ◌-◌, true, if◌then◌else◌, Bool-cases, inl, inr, ℕ, suc,
  ◌<◌, ◌≡◌, refl, ap, ◌∙◌, false, [], ◌∷◌, ◌++◌, Bytes, arith, ltb, length, take, length-append,
  take_append, ok, err, Error,
}
use adcl.Stdlib.Strings.{Lacks}
use adcl.Stdlib.Bufio.{Slice, reader, read_slice_found}
use adcl.Parser.ConnReader.{
  validate_message, ConnReader, eol, max_message_length, is_buffer_full, without_eol, finish_line,
  check_start, after_check, with_reader, first_slice, read_message_line,
}
use adcl.Parser.ConnReader.Discard.{after_line, discard_line_lem}

-- What the check of the start says of a line: less than five bytes are not checked.
abbrev pub start_check : Bytes → Result {0} Unit
start_check buf = if leb 5 (length buf) then validate_message buf else ok tt

-- Behind the check there is no error left, of a line with its end and of five bytes or more.
abbrev pub checked_slice : Bytes → Result Slice
checked_slice buf = start_check buf >>= λ _. ok (buf, none)

pub check_start_held : (buf : Bytes) → check_start (buf, none) ≡ checked_slice buf
unfolding check_start
check_start_held buf = elim (Bool-cases (leb 5 (length buf))) [
  | inl five ↦ rw five refl
  | inr less ↦ rw less refl
]

pub check_start_full :
    (buf : Bytes) (e : Option Error) → 5 ≤ length buf → check_start (buf, e) ≡ checked_slice buf
unfolding check_start
check_start_full buf e h = let five : leb 5 (length buf) ≡ true = ground (arith, h) in rw five refl

pub without_eol_lem : (w : Bytes) → without_eol (w ++ (eol ∷ [])) ≡ ok w
without_eol_lem [] = refl
without_eol_lem (c ∷ cs) =
    ap (λ x. ok x)
      (ap (λ n. take n (c ∷ (cs ++ (eol ∷ [])))) {y = suc (length cs)}
          (length-append cs (eol ∷ []) ∙ omega arith)
        ∙ take_append (suc (length cs)) (c ∷ cs) (eol ∷ []) refl)

-- A full buffer loses its last byte.
pub without_eol_full :
    (size : ℕ) (w : Bytes) → length w ≡ size → 0 < size → without_eol w ≡ ok (take (size - 1) w)
without_eol_full size [] e h = absurd (omega arith)
without_eol_full size (c ∷ cs) e h =
    ap (λ n. ok (take n (c ∷ cs))) {y = size - 1} (omega (arith, e))

module _ (size : ℕ) (stop : Error) (line_buf : Bytes) where
  -- The reader of a connection with what is left of its input.
  abbrev pub connection : Bytes → ConnReader
  connection s = record { r = reader eol size stop s; line_buf = line_buf }

  -- A line that the buffer and the limit can hold, and whose start passes the check, is returned
  -- without its end, and exactly it is read.
  pub read_message_line_valid :
      (w rest : Bytes)
      → Lacks eol w
      → length w < size
      → length w < max_message_length
      → start_check (w ++ (eol ∷ [])) ≡ ok tt
      → read_message_line (connection (w ++ (eol ∷ rest))) ≡ (ok w, connection rest)
  unfolding read_message_line first_slice after_check finish_line
  read_message_line_valid w rest h room short good =
      ap (λ x. with_reader (connection rest) (first_slice line_buf x))
        (read_slice_found eol size stop w rest h room)
      ∙ rw (not_long, check_start_held (w ++ (eol ∷ [])), good, without_eol_lem w) refl
    where
      not_long : ltb max_message_length (length (w ++ (eol ∷ []))) ≡ false
      not_long = ground (arith, length-append w (eol ∷ []))

  -- A line that the buffer and the limit can hold, and whose start fails the check, gives the
  -- error of the check, and the line that follows is read and dropped too.
  pub read_message_line_invalid :
      (w rest : Bytes) (e : Error)
      → 0 < size
      → is_buffer_full stop ≡ false
      → Lacks eol w
      → length w < size
      → length w < max_message_length
      → start_check (w ++ (eol ∷ [])) ≡ err e
      → read_message_line (connection (w ++ (eol ∷ rest))) ≡ (err e, connection (after_line rest))
  unfolding read_message_line first_slice after_check
  read_message_line_invalid w rest e some_room no_full h room short bad =
      ap (λ x. with_reader (connection rest) (first_slice line_buf x))
        (read_slice_found eol size stop w rest h room)
      ∙ rw
          (
            not_long,
            check_start_held (w ++ (eol ∷ [])),
            bad,
            discard_line_lem size stop some_room no_full rest,
          )
          refl
    where
      not_long : ltb max_message_length (length (w ++ (eol ∷ []))) ≡ false
      not_long = ground (arith, length-append w (eol ∷ []))
