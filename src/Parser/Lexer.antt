-- ===== src/Parser/Lexer.antt =====
-- protocol/parser/lexer.go
pub mod Shape
pub mod Tokens
pub mod PutBack
pub mod PutAll
use adcl.Prelude.{
  ℕ, zero, suc, ◌+◌, ◌-◌, ◌≡◌, Bool, true, false, Bytes, [], ◌∷◌, Option, none, some, Result, ok,
  err, panic, eof, invalid_token, ◌==◌, leb, ltb, equal, if◌then◌else◌, length, take, drop,
}
use adcl.Stdlib.Strings.{index_byte, last_index_byte}

abbrev pub space : ℕ
space = b' '

pub record Lexer : Type 0 where
  pub s : Bytes
  pub offset : ℕ

unfoldable pub reset : Lexer → Bytes → Lexer
reset l s = record { s = s; offset = 0 }

-- The loop of `readNext`. The list is `l.s[start:]`; a round in which the first byte is a space
-- goes on behind it.
unfoldable pub read_loop : Bytes → ℕ → ℕ → Bytes → Result (Bytes × ℕ)
read_loop s offset start [] = err eof
read_loop s offset start (c ∷ cs) =
    let again = read_loop s offset (start + 1) cs in
    elim (index_byte space (c ∷ cs)) [
      | some zero ↦ again
      | none ↦ ok (c ∷ cs, length s - offset)
      | some (suc i) ↦ ok (take (suc i) (c ∷ cs), (start - offset) + suc i + 1)
    ]

-- The token, and the number of bytes up to behind it. Slicing behind the end of the string panics.
unfoldable pub read_next : Lexer → Result (Bytes × ℕ)
unfolding read_loop
read_next l =
    if leb l.offset (length l.s) then read_loop l.s l.offset l.offset (drop l.offset l.s) else panic

advance : Lexer → Result (Bytes × ℕ) → Result Bytes × Lexer
advance l (ok (tok, n)) = (ok tok, record l { offset = l.offset + n })
advance l (err e) = (err e, l)
advance l panic = (panic, l)

unfoldable pub next : Lexer → Result Bytes × Lexer
unfolding read_next advance
next l = advance l (read_next l)

peeked : Result (Bytes × ℕ) → Result Bytes
peeked (ok (tok, _)) = ok tok
peeked (err e) = err e
peeked panic = panic

unfoldable pub peek : Lexer → Result Bytes
unfolding read_next peeked
peek l = peeked (read_next l)

-- The loop of `Put` over `end`. `strings.LastIndexByte("", space)` is -1, which is `end-1` at 0:
-- the next round slices up to -1, and panics.
unfoldable pub put_end : Bytes → ℕ → Result ℕ
put_end s zero = panic
put_end s (suc e) =
    let again = put_end s e in
    elim (last_index_byte space (take (suc e) s)) [
      | none ↦ ok (suc e)
      | some i ↦ if i == e then again else ok (suc e)
    ]

-- `l.s[end-len(tok):end]` panics if the token is longer than what stands before `end`.
put_at : Lexer → Bytes → Result ℕ → Result (Unit {0}) × Lexer
put_at l tok (ok end) =
    if ltb end (length tok)
    then (panic, l)
    else if equal (take (length tok) (drop (end - length tok) l.s)) tok
    then (ok tt, record l { offset = end - length tok })
    else (err invalid_token, l)
put_at l tok (err e) = (err e, l)
put_at l tok panic = (panic, l)

unfoldable pub put : Lexer → Bytes → Result (Unit {0}) × Lexer
unfolding put_at
put l tok = if leb l.offset (length l.s) then put_at l tok (put_end l.s l.offset) else (panic, l)
