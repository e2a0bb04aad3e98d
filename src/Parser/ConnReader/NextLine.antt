-- ===== src/Parser/ConnReader/NextLine.antt =====
-- protocol/parser/conn_reader.go: what ReadMessageLine gives for the text of a stream, without the
-- buffers and the loops of the code.
use adcl.Prelude.{
  ℕ, ◌-◌, ◌<◌, ◌≡◌, refl, ap, ◌∙◌, sym, Bool, true, false, [], ◌∷◌, ◌++◌, append-nil, Bytes, arith,
  ◌==◌, ltb, leb, if◌then◌else◌, length, take, drop, length-append, take_append, drop_append,
  Result, ok, err, panic, Error, message_too_long,
}
use adcl.Stdlib.Strings.{Lacks}
use adcl.Stdlib.Bufio.{take_before}
use adcl.Parser.ConnReader.{eol, max_message_length}
use adcl.Parser.ConnReader.Lines.{start_check}
use adcl.Parser.ConnReader.Discard.{after_line, after_line-append}

-- The bytes before the first end of a line, and whether there is one.
abbrev pub head_line : Bytes → Bytes
head_line [] = []
head_line (c ∷ cs) = if c == eol then [] else c ∷ head_line cs

abbrev pub is_ended : Bytes → Bool
is_ended [] = false
is_ended (c ∷ cs) = if c == eol then true else is_ended cs

head_line-append : (w rest : Bytes) → Lacks eol w → head_line (w ++ rest) ≡ w ++ head_line rest
head_line-append [] rest h = refl
head_line-append (c ∷ cs) rest (n, h) = ground (arith, head_line-append cs rest h)

is_ended-append : (w rest : Bytes) → Lacks eol w → is_ended (w ++ rest) ≡ is_ended rest
is_ended-append [] rest h = refl
is_ended-append (c ∷ cs) rest (n, h) = ground (arith, is_ended-append cs rest h)

head_line-Lacks : (w : Bytes) → Lacks eol w → head_line w ≡ w
head_line-Lacks [] h = refl
head_line-Lacks (c ∷ cs) (n, h) = ground (arith, head_line-Lacks cs h)

is_ended-Lacks : (w : Bytes) → Lacks eol w → is_ended w ≡ false
is_ended-Lacks [] h = refl
is_ended-Lacks (c ∷ cs) (n, h) = ground (arith, is_ended-Lacks cs h)

-- The error of the check of the start, with what is left then; or what follows the check.
abbrev pub unless : Result {0} Unit → Bytes → Result Bytes × Bytes → Result Bytes × Bytes
unless (ok _) rest x = x
unless (err e) rest x = (err e, rest)
unless panic rest x = (panic, rest)

-- A line that the buffer holds, with its end: it is returned, and an error of it costs the line
-- behind it as well.
abbrev pub held_line : Bytes → Result Bytes × Bytes
held_line s =
    if leb max_message_length (length (head_line s))
    then (err message_too_long, after_line (after_line s))
    else unless (start_check (head_line s ++ (eol ∷ []))) (after_line (after_line s))
        (ok (head_line s), after_line s)

-- A line that fills the buffer: it is cut there, with the loss of a byte, and the rest of it is left;
-- an error of it costs that rest.
abbrev pub cut_line : ℕ → Bytes → Result Bytes × Bytes
cut_line size s =
    if ltb max_message_length size
    then (err message_too_long, after_line s)
    else unless (start_check (take size s)) (after_line s) (ok (take (size - 1) s), drop size s)

-- The result for a stream, and what is left of it.
abbrev pub next_line : ℕ → Error → Bytes → Result Bytes × Bytes
next_line size stop s =
    if ltb (length (head_line s)) size
    then (if is_ended s then held_line s else (err stop, []))
    else cut_line size s

module _ (size : ℕ) (stop : Error) where
  pub next_line_found :
      (w rest : Bytes)
      → Lacks eol w
      → length w < size
      → next_line size stop (w ++ (eol ∷ rest)) ≡ (
          if leb max_message_length (length w)
          then (err message_too_long, after_line rest)
          else unless (start_check (w ++ (eol ∷ []))) (after_line rest) (ok w, rest))
  next_line_found w rest h room =
      rw
        (
          head_line-append w (eol ∷ rest) h,
          append-nil w,
          is_ended-append w (eol ∷ rest) h,
          after_line-append w (eol ∷ rest) h,
        )
        (ground arith)

  pub next_line_ended :
      (s : Bytes) → Lacks eol s → length s < size → next_line size stop s ≡ (err stop, [])
  next_line_ended s h room = rw (head_line-Lacks s h, is_ended-Lacks s h) (ground arith)

  pub next_line_full :
      (w rest : Bytes)
      → Lacks eol w
      → length w ≡ size
      → 0 < size
      → next_line size stop (w ++ rest) ≡ (
          if ltb max_message_length size
          then (err message_too_long, after_line rest)
          else unless (start_check w) (after_line rest) (ok (take (size - 1) w), rest))
  next_line_full w rest h held room =
      let not_short : ltb (length (head_line (w ++ rest))) size ≡ false =
        ground
          (arith, held, ap length (head_line-append w rest h), length-append w (head_line rest)) in
      ap
        (λ b.
          if b
          then (if is_ended (w ++ rest) then held_line (w ++ rest) else (err stop, []))
          else cut_line size (w ++ rest))
        not_short
      ∙ rw
          (
            after_line-append w rest h,
            take_append size w rest (sym held),
            take_before (size - 1) w rest (omega arith),
            drop_append size w rest (sym held),
          )
          refl
