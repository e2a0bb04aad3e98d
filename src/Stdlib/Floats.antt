-- ===== src/Stdlib/Floats.antt =====
-- Floating point numbers, and ParseFloat of package strconv: a parameter of the code.
use adcl.Prelude.{ℕ, Bytes, Option, Error}

-- What the code does with them: it parses a text for a number of bits, and narrows what it got.
-- ParseFloat gives a value beside its error, such as an infinity for a text out of range.
pub record Floats : Type 1 where
  pub Float64 : Type 0
  pub Float32 : Type 0
  pub parse_float : Bytes → ℕ → Float64 × Option Error
  pub to_float32 : Float64 → Float32
