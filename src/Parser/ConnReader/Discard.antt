-- ===== src/Parser/ConnReader/Discard.antt =====
-- protocol/parser/conn_reader.go: discardLine reads through the end of the line, however often
-- the buffer is filled.
use adcl.Prelude.{
  ℕ, zero, suc, ◌<◌, ◌≤◌, ◌≡◌, refl, ap, ◌∙◌, false, [], ◌∷◌, ◌++◌, Bytes, arith, ◌==◌,
  if◌then◌else◌, length, length-append, Result, ok, err, Error,
}
use adcl.Stdlib.Strings.{Lacks}
use adcl.Stdlib.Bufio.{reader, found, full, ended, read_slice-cases}
use adcl.Parser.ConnReader.{eol, is_buffer_full, discard_round, discard_loop, discard_line}

-- What follows the first line.
abbrev pub after_line : Bytes → Bytes
after_line [] = []
after_line (c ∷ cs) = if c == eol then cs else after_line cs

pub after_line-append : (w rest : Bytes) → Lacks eol w → after_line (w ++ rest) ≡ after_line rest
after_line-append [] rest h = refl
after_line-append (c ∷ cs) rest (n, h) = ground (arith, after_line-append cs rest h)

pub after_line-Lacks : (w : Bytes) → Lacks eol w → after_line w ≡ []
after_line-Lacks [] h = refl
after_line-Lacks (c ∷ cs) (n, h) = ground (arith, after_line-Lacks cs h)

pub length-after_line : (s : Bytes) → length (after_line s) ≤ length s
length-after_line [] = omega arith
length-after_line (c ∷ cs) = ground (arith, length-after_line cs)

-- The error of the source, unless there is an end of a line before it.
abbrev pub line_end : Error → Bytes → Result {0} Unit
line_end stop [] = err stop
line_end stop (c ∷ cs) = if c == eol then ok tt else line_end stop cs

line_end-append :
    (stop : Error) (w rest : Bytes) → Lacks eol w → line_end stop (w ++ rest) ≡ line_end stop rest
line_end-append stop [] rest h = refl
line_end-append stop (c ∷ cs) rest (n, h) = ground (arith, line_end-append stop cs rest h)

line_end-Lacks : (stop : Error) (w : Bytes) → Lacks eol w → line_end stop w ≡ err stop
line_end-Lacks stop [] h = refl
line_end-Lacks stop (c ∷ cs) (n, h) = ground (arith, line_end-Lacks stop cs h)

module _ (size : ℕ) (stop : Error) (some_room : 0 < size)
    (no_full : is_buffer_full stop ≡ false) where
  discard_loop_lem :
      (fuel : ℕ) (s : Bytes)
      → length s < fuel
      → discard_loop fuel (reader eol size stop s)
        ≡ (line_end stop s, reader eol size stop (after_line s))
  unfolding discard_loop discard_round
  discard_loop_lem zero s enough = absurd (omega arith)
  discard_loop_lem (suc fuel) s enough = elim (read_slice-cases eol size stop s) [
    | found w rest h short e slice ↦
        ap (discard_round (discard_loop fuel)) slice
        ∙ rw (e, line_end-append stop w (eol ∷ rest) h, after_line-append w (eol ∷ rest) h) refl
    | full w rest h long e slice ↦
        ap (discard_round (discard_loop fuel)) slice
        ∙ discard_loop_lem fuel rest (omega (arith, ap length e, length-append w rest))
        ∙ rw (e, line_end-append stop w rest h, after_line-append w rest h) refl
    | ended h short slice ↦
        ap (discard_round (discard_loop fuel)) slice
        ∙ rw (no_full, line_end-Lacks stop s h, after_line-Lacks s h) refl
  ]

  -- discardLine reads through the end of the first line, or to the end of the input with the
  -- error of the source, if its buffer has room for a byte and that error is not ErrBufferFull.
  pub discard_line_lem :
      (s : Bytes)
      → discard_line (reader eol size stop s)
        ≡ (line_end stop s, reader eol size stop (after_line s))
  unfolding discard_line
  discard_line_lem s = discard_loop_lem (suc (length s)) s (omega arith)
