-- ===== src/Stdlib/Strconv.antt =====
-- Package strconv: ParseUint and ParseInt with base 10 and 64 bits.
pub mod Decimal
use Prim.Native.Nat.{◌^◌}
use adcl.Prelude.{
  ℕ, zero, suc, ◌+◌, ◌-◌, ◌*◌, ◌/◌, ◌%◌, ℤ, pos, negsuc, Bytes, [], ◌∷◌, Result, ok, err, panic,
  syntax_error, range_error, Bool, true, false, ◌||◌, ◌==◌, ltb, leb, if◌then◌else◌,
}

abbrev max_uint64 : ℕ
max_uint64 = 2 ^ 64 - 1

pub digits : Bytes → ℕ → Result ℕ
digits [] n = ok n
digits (c ∷ s) n =
    let d = c - b'0' in
    let rest = digits s (n * 10 + d) in
    if ltb c b'0' || ltb b'9' c
    then err syntax_error
    else if ltb max_uint64 (n * 10 + d)
    then err range_error
    else rest

unfoldable pub parse_uint : Bytes → Result ℕ
unfolding digits
parse_uint [] = err syntax_error
parse_uint (c ∷ s) = digits (c ∷ s) 0

-- The magnitude with its sign; a magnitude that does not fit 64 bits does not fit 63 either.
pub signed : Bool → Result ℕ → Result ℤ
signed false (ok n) = if leb (2 ^ 63) n then err range_error else ok (pos n)
signed true (ok zero) = ok (pos 0)
signed true (ok (suc n)) = if ltb (2 ^ 63) (suc n) then err range_error else ok (negsuc n)
signed _ (err e) = err e
signed _ panic = panic

unfoldable pub parse_int : Bytes → Result ℤ
unfolding signed
parse_int [] = err syntax_error
parse_int (c ∷ s) =
    if c == b'+'
    then signed false (parse_uint s)
    else if c == b'-'
    then signed true (parse_uint s)
    else signed false (parse_uint (c ∷ s))

-- The decimal digits of a number, the last first; a number has at most as many as its value and
-- one.
format_loop : ℕ → ℕ → Bytes → Bytes
format_loop zero n done = done
format_loop (suc fuel) n done =
    let more = format_loop fuel (n / 10) ((b'0' + n % 10) ∷ done) in
    if ltb n 10 then (b'0' + n) ∷ done else more

-- FormatUint with base 10, which is also what Sprintf writes for `%d`.
unfoldable pub format_uint : ℕ → Bytes
unfolding format_loop
format_uint n = format_loop (suc n) n []
