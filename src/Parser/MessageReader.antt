-- ===== src/Parser/MessageReader.antt =====
-- protocol/parser/message_reader.go
use adcl.Prelude.{
  Bool, false, ◌&&◌, Bytes, [], ◌∷◌, Result, ok, err, panic, eof, incomplete_message,
  invalid_named_parameter, if◌then◌else◌,
}
use adcl.Encoding.{is_upper_alpha, is_upper_alpha_num}
use adcl.Parser.Positional.{Positional}
use adcl.Parser.Named.{Named}
use adcl.Parser.Lexer
use adcl.Parser.Lexer.{Lexer}

pub record MessageReader : Type 0 where
  pub lexer : Lexer

-- A function that reads from `*MessageReader`: the reader comes back beside the result, also on an
-- error.
abbrev pub Read {ℓ} : Type ℓ → Type ℓ
Read A = MessageReader → Result A × MessageReader

abbrev pub pure {ℓ} : {A : Type ℓ} → A → Read A
pure a m = (ok a, m)

abbrev pub lift {ℓ} : {A : Type ℓ} → Result A → Read A
lift r m = (r, m)

-- The early returns: what follows runs only on a value.
abbrev pub continue {ℓ κ} :
    {A : Type ℓ} {B : Type κ} → Result A × MessageReader → (A → Read B) → Result B × MessageReader
continue (ok a, m) f = f a m
continue (err e, m) f = (err e, m)
continue (panic, m) f = (panic, m)

infixl 5 ◌>>=◌
abbrev pub ◌>>=◌ {ℓ κ} : {A : Type ℓ} {B : Type κ} → Read A → (A → Read B) → Read B
◌>>=◌ r f m = continue (r m) f

-- `if err == io.EOF { err = ErrIncompleteMessage; return }`
abbrev pub eof_incomplete {ℓ} : {A : Type ℓ} → Result A → Result A
eof_incomplete (err eof) = err incomplete_message
eof_incomplete r = r

abbrev pub required {ℓ} : {A : Type ℓ} → Read A → Read A
required r m = let (x, m') = r m in (eof_incomplete x, m')

unfoldable pub new_message_reader : Bytes → MessageReader
new_message_reader s = record { lexer = Lexer.reset (record { s = []; offset = 0 }) s }

unfoldable pub reset : MessageReader → Bytes → MessageReader
reset m s = record m { lexer = Lexer.reset m.lexer s }

-- `m.lexer.Next()` and `m.lexer.Put(tok)` write to the lexer in the reader.
unfoldable pub lexer_next : Read Bytes
lexer_next m = let (tok, l) = Lexer.next m.lexer in (tok, record m { lexer = l })

unfoldable pub lexer_put : Bytes → Read (Unit {0})
lexer_put tok m = let (done, l) = Lexer.put m.lexer tok in (done, record m { lexer = l })

-- The first two bytes are a letter, and a letter or a digit. The test on the length makes the
-- indexing legal.
unfoldable pub is_named : Bytes → Bool
is_named (a ∷ b ∷ _) = is_upper_alpha a && is_upper_alpha_num b
is_named _ = false

unfoldable pub read_named : Read Named
unfolding lexer_next
read_named = do
  tok ← lexer_next
  if is_named tok then pure (record { raw = tok }) else lift (err invalid_named_parameter)

unfoldable pub return_named : Named → Read (Unit {0})
return_named param = lexer_put param.raw

unfoldable pub read_positional : Read Positional
unfolding lexer_next
read_positional = do tok ← lexer_next; pure (record { raw = tok })

unfoldable pub return_positional : Positional → Read (Unit {0})
return_positional param = lexer_put param.raw
