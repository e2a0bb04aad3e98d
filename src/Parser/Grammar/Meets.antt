-- ===== src/Parser/Grammar/Meets.antt =====
-- protocol/parser: a call on the reader that does to the line what a function does to its tokens.
use mathlib.Core.Path.{subst}
use adcl.Prelude.{◌≡◌, refl, sym, ap, Bytes, [], ◌∷◌, Result, ok, err, panic, eof, ◌>>=◌}
use adcl.Parser.Lexer.{Lexer}
use adcl.Parser.Lexer.Tokens.{tokens, unread, IsInBounds, NextMeets, next-tokens}
use adcl.Parser.MessageReader.{MessageReader, Read, continue, required, lexer_next, read_positional}
use adcl.Parser.Grammar.{Tokens, take_token}

-- The reader stands before these tokens.
abbrev pub At : MessageReader → Tokens → Type 0
At m ts = IsInBounds m.lexer × (tokens (unread m.lexer) ≡ ts)

-- The same value, or error, or panic; with a value the reader stands before the tokens left.
abbrev pub Meets : {A : Type 0} → Result A × MessageReader → Result (A × Tokens) → Type 0
Meets x (ok (a, ts)) = (m : MessageReader) × (x ≡ (ok a, m)) × At m ts
Meets x (err e) = (m : MessageReader) × (x ≡ (err e, m))
Meets x panic = (m : MessageReader) × (x ≡ (panic, m))

pub Meets-bind :
    {A B : Type 0} (x : Result A × MessageReader) (y : Result (A × Tokens)) (k : A → Read B)
    (g : A × Tokens → Result (B × Tokens))
    → Meets x y
    → ((a : A) (m : MessageReader) (ts : Tokens) → At m ts → Meets (k a m) (g (a, ts)))
    → Meets (continue x k) (y >>= g)
Meets-bind x (ok (a, ts)) k g (m, e, h) next =
    subst (λ z. Meets (continue z k) (g (a, ts))) (sym e) (next a m ts h)
Meets-bind x (err e) k g (m, p) next = (m, ap (λ z. continue z k) p)
Meets-bind x panic k g (m, p) next = (m, ap (λ z. continue z k) p)

-- A step that does not read.
pub Meets-lift :
    {A B : Type 0} (r : Result A) (m : MessageReader) (ts : Tokens) (k : A → Read B)
    (g : A → Result (B × Tokens))
    → ((a : A) → Meets (k a m) (g a))
    → Meets (continue (r, m) k) (r >>= g)
Meets-lift (ok a) m ts k g h = h a
Meets-lift (err e) m ts k g h = (m, refl)
Meets-lift panic m ts k g h = (m, refl)

-- `Next` through the reader: the first token, or the end of the line.
abbrev pub pop : Tokens → Result (Bytes × Tokens)
pop [] = err eof
pop (t ∷ ts) = ok (t, ts)

with_lexer : Result Bytes × Lexer → Result Bytes × MessageReader
with_lexer z = (z.0, record { lexer = z.1 })

next_token :
    (m : MessageReader) (ts : Tokens) → NextMeets m.lexer ts → Meets (lexer_next m) (pop ts)
unfolding lexer_next with_lexer
next_token m [] e = (m, ap with_lexer e)
next_token m (t ∷ ts) (l, e, same, left, lt, h) =
    (record m { lexer = l }, ap with_lexer e, (h, left))

pub lexer_next-Meets : (m : MessageReader) (ts : Tokens) → At m ts → Meets (lexer_next m) (pop ts)
lexer_next-Meets m ts (h, e) = next_token m ts (subst (NextMeets m.lexer) e (next-tokens m.lexer h))

pub read_positional-Meets :
    (m : MessageReader) (ts : Tokens)
    → At m ts
    → Meets (read_positional m) (pop ts >>= λ p. ok (record { raw = p.0 }, p.1))
unfolding read_positional
read_positional-Meets m ts h =
    Meets-bind (lexer_next m) (pop ts) (λ tok m'. (ok (record { raw = tok }), m'))
      (λ p. ok (record { raw = p.0 }, p.1)) (lexer_next-Meets m ts h)
      (λ tok m' ts' h'. (m', refl, h'))

pub required-Meets :
    (m : MessageReader) (ts : Tokens)
    → At m ts
    → Meets (required read_positional m) (take_token ts >>= λ p. ok (record { raw = p.0 }, p.1))
required-Meets m [] h = let (m', e) = read_positional-Meets m [] h in (m', rw e)
required-Meets m (t ∷ ts) h = let (m', e, h') = read_positional-Meets m (t ∷ ts) h in (m', rw e, h')

-- At the end of a line only the value counts.
pub Ends-lift :
    {A B : Type 0} (r : Result A) (m : MessageReader) (k : A → Read B) (g : A → Result B)
    → ((a : A) → (k a m).0 ≡ g a)
    → (continue (r, m) k).0 ≡ (r >>= g)
Ends-lift (ok a) m k g h = h a
Ends-lift (err e) m k g h = refl
Ends-lift panic m k g h = refl

pub Ends-value :
    {A B : Type 0} (x : Result A × MessageReader) (r : Result A) (f : A → B)
    → x.0 ≡ r
    → (continue x (λ a m. (ok (f a), m))).0 ≡ (r >>= λ a. ok (f a))
Ends-value (ok a, m) r f h = rw (← h) refl
Ends-value (err e, m) r f h = rw (← h) refl
Ends-value (panic, m) r f h = rw (← h) refl

pub Ends-bind :
    {A B : Type 0} (x : Result A × MessageReader) (y : Result (A × Tokens)) (k : A → Read B)
    (g : A × Tokens → Result B)
    → Meets x y
    → ((a : A) (m : MessageReader) (ts : Tokens) → At m ts → (k a m).0 ≡ g (a, ts))
    → (continue x k).0 ≡ (y >>= g)
Ends-bind x (ok (a, ts)) k g (m, e, h) next = rw e (next a m ts h)
Ends-bind x (err e) k g (m, p) next = rw p refl
Ends-bind x panic k g (m, p) next = rw p refl

pub continue_assoc :
    {A B C : Type 0} (x : Result A × MessageReader) (k : A → Read B) (j : B → Read C)
    → continue (continue x k) j ≡ continue x (λ a m. continue (k a m) j)
continue_assoc (ok a, m) k j = refl
continue_assoc (err e, m) k j = refl
continue_assoc (panic, m) k j = refl
