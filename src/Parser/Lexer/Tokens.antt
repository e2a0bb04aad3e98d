-- ===== src/Parser/Lexer/Tokens.antt =====
-- protocol/parser/lexer.go: the tokens of a line, and that `Next` reads them one by one.
use mathlib.Core.Path.{subst}
use adcl.Prelude.{
  All, All-append, Bool-cases, inl, inr, ◌<◌, ◌+◌, ◌≤◌, ◌<◌, ◌≡◌, refl, sym, ap, ◌∙◌, Bytes, List,
  [], ◌∷◌, ◌++◌, ok, err, eof, ◌==◌, if◌then◌else◌, length, take, drop, arith, length-append,
  length-take, drop_append_add, drop-length, append-nil, append_assoc, take-append-drop,
}
use adcl.Stdlib.Strings.{Lacks}
use adcl.Parser.Lexer.{space, Lexer, next, peek}
use adcl.Parser.Lexer.Shape.{
  Spaces, IsToken, Shape, blank, final, inner, shape, at, next-blank, next-final, next-inner,
}

abbrev flush : Bytes → List Bytes → List Bytes
flush [] ts = ts
flush (c ∷ w) ts = (c ∷ w) ∷ ts

-- The maximal runs of bytes other than the space, in order, cut byte by byte.
unfoldable pub tokens_from : Bytes → Bytes → List Bytes
tokens_from cur [] = flush cur []
tokens_from cur (c ∷ cs) =
    let cut = flush cur (tokens_from [] cs) in
    let grown = tokens_from (cur ++ (c ∷ [])) cs in if c == space then cut else grown

abbrev pub tokens : Bytes → List Bytes
tokens = tokens_from []

pub tokens-gap : (gap xs : Bytes) → Spaces gap → tokens (gap ++ xs) ≡ tokens xs
unfolding tokens_from
tokens-gap [] xs g = refl
tokens-gap (c ∷ gap) xs (h, g) = rw h (tokens-gap gap xs g)

pub tokens-blank : (gap : Bytes) → Spaces gap → tokens gap ≡ []
unfolding tokens_from
tokens-blank [] g = refl
tokens-blank (c ∷ gap) (h, g) = rw h (tokens-blank gap g)

tokens_from-append :
    (cur w xs : Bytes) → Lacks space w → tokens_from cur (w ++ xs) ≡ tokens_from (cur ++ w) xs
unfolding tokens_from
tokens_from-append cur [] xs h = rw append-nil
tokens_from-append cur (c ∷ w) xs (n, h) =
    ground (arith, tokens_from-append (cur ++ (c ∷ [])) w xs h, append_assoc cur (c ∷ []) w)

pub tokens-final : (tok : Bytes) → IsToken tok → tokens tok ≡ tok ∷ []
tokens-final [] (n, l) = absurd (n refl)
tokens-final (c ∷ cs) (n, l) =
    ap tokens (sym (append-nil (c ∷ cs)))
    ∙ tokens_from-append [] (c ∷ cs) [] l
    ∙ (unfold tokens_from in refl)

pub tokens-inner :
    (tok rest : Bytes) → IsToken tok → tokens (tok ++ (space ∷ rest)) ≡ tok ∷ tokens rest
tokens-inner [] rest (n, l) = absurd (n refl)
tokens-inner (c ∷ cs) rest (n, l) =
    tokens_from-append [] (c ∷ cs) (space ∷ rest) l ∙ (unfold tokens_from in refl)

-- What `Next` has not yet read.
abbrev pub unread : Lexer → Bytes
unread l = drop l.offset l.s

-- The invariant of the lexer; `Reset` sets it up, and it makes every slicing legal.
abbrev pub IsInBounds : Lexer → Type 0
IsInBounds l = l.offset ≤ length l.s

-- `Next` on a lexer with these tokens left: it takes the first, behind which stand the others, or
-- reports the end and changes nothing.
abbrev pub NextMeets : Lexer → List Bytes → Type 0
NextMeets l [] = next l ≡ (err eof, l)
NextMeets l (t ∷ ts) =
    (l' : Lexer) × (next l ≡ (ok t, l'))
    × (l'.s ≡ l.s)
    × (tokens (unread l') ≡ ts)
    × (l.offset < l'.offset)
    × IsInBounds l'

pub at_lem : (l : Lexer) → IsInBounds l → at (take l.offset l.s) (unread l) ≡ l
at_lem l h =
    let e : length (take l.offset l.s) ≡ l.offset = omega (arith, length-take l.offset l.s) in
    λ i. record { s = take-append-drop l.offset l.s i; offset = e i }

length-IsToken : (tok : Bytes) → IsToken tok → 0 < length tok
length-IsToken [] (n, l) = absurd (n refl)
length-IsToken (c ∷ cs) t = omega arith

-- Behind a token and the one space that `Next` takes with it.
drop-inner :
    (pre gap tok rest : Bytes)
    → drop (length pre + length gap + length tok + 1) (pre ++ (gap ++ (tok ++ (space ∷ rest))))
      ≡ rest
drop-inner pre gap tok rest =
    drop_append_add _ (length gap + (length tok + 1)) pre _ (omega arith)
    ∙ drop_append_add _ (length tok + 1) gap _ refl
    ∙ drop_append_add _ 1 tok (space ∷ rest) refl

length-inner :
    (pre gap tok rest : Bytes)
    → length (pre ++ (gap ++ (tok ++ (space ∷ rest))))
      ≡ length pre + length gap + length tok + 1 + length rest
length-inner pre gap tok rest = omega (
  arith,
  length-append pre (gap ++ (tok ++ (space ∷ rest))),
  length-append gap (tok ++ (space ∷ rest)),
  length-append tok (space ∷ rest),
)

NextMeets-at : (pre xs : Bytes) → Shape xs → NextMeets (at pre xs) (tokens xs)
NextMeets-at pre xs (blank g) = rw (tokens-blank xs g) (next-blank pre xs g)
NextMeets-at pre xs (final gap tok g t e) =
    subst (λ x. NextMeets (at pre x) (tokens x)) (sym e)
      (rw (tokens-gap gap tok g, tokens-final tok t)
        (
          record { s = pre ++ (gap ++ tok); offset = length (pre ++ (gap ++ tok)) },
          next-final pre gap g tok t,
          refl,
          ap tokens (drop-length (pre ++ (gap ++ tok))) ∙ (unfold tokens_from in refl),
          omega
              (arith, length-append pre (gap ++ tok), length-append gap tok, length-IsToken tok t),
          omega arith,
        ))
NextMeets-at pre xs (inner gap tok rest g t e) =
    subst (λ x. NextMeets (at pre x) (tokens x)) (sym e)
      (rw (tokens-gap gap (tok ++ (space ∷ rest)) g, tokens-inner tok rest t)
        (
          record {
            s = pre ++ (gap ++ (tok ++ (space ∷ rest)));
            offset = length pre + length gap + length tok + 1;
          },
          next-inner pre gap g tok t rest,
          refl,
          ap tokens (drop-inner pre gap tok rest),
          omega arith,
          omega (arith, length-inner pre gap tok rest),
        ))

-- `Next` reads the tokens of the line in order, and leaves the line alone.
pub next-tokens : (l : Lexer) → IsInBounds l → NextMeets l (tokens (unread l))
next-tokens l h =
    subst (λ k. NextMeets k (tokens (unread l))) (at_lem l h)
      (NextMeets-at (take l.offset l.s) (unread l) (shape (unread l)))

-- `Peek` gives what `Next` would give.
peek-next : (l : Lexer) → peek l ≡ (next l).0
unfolding peek next
peek-next l = ground arith

length-flush : (cur : Bytes) (ts : List Bytes) → length (flush cur ts) ≤ length cur + length ts
length-flush [] ts = omega arith
length-flush (c ∷ w) ts = omega arith

length-tokens_from : (s cur : Bytes) → length (tokens_from cur s) ≤ length cur + length s
unfolding tokens_from
length-tokens_from [] cur = omega (arith, length-flush cur [])
length-tokens_from (c ∷ cs) cur = ground (
  arith,
  length-flush cur (tokens_from [] cs),
  length-tokens_from cs [],
  length-tokens_from cs (cur ++ (c ∷ [])),
  length-append cur (c ∷ []),
)

-- A line has at most as many tokens as bytes.
pub length-tokens : (s : Bytes) → length (tokens s) ≤ length s
length-tokens s = omega (arith, length-tokens_from s [])

flush-All :
    (cur : Bytes) (ts : List Bytes)
    → All (λ b. b < 256) cur
    → All (All (λ b. b < 256)) ts
    → All (All (λ b. b < 256)) (flush cur ts)
flush-All [] ts h hs = hs
flush-All (c ∷ cur) ts h hs = (h, hs)

tokens_from-All :
    (s cur : Bytes)
    → All (λ b. b < 256) s
    → All (λ b. b < 256) cur
    → All (All (λ b. b < 256)) (tokens_from cur s)
unfolding tokens_from
tokens_from-All [] cur h k = flush-All cur [] k tt
tokens_from-All (c ∷ cs) cur (h, hs) k = elim (Bool-cases (c == space)) [
  | inl same ↦ rw same (flush-All cur (tokens_from [] cs) k (tokens_from-All cs [] hs tt))
  | inr other ↦
      rw other
        (tokens_from-All cs (cur ++ (c ∷ [])) hs (All-append (λ b. b < 256) cur (c ∷ []) k (h, tt)))
]

-- The tokens of a line of bytes are made of bytes.
pub tokens-All : (s : Bytes) → All (λ b. b < 256) s → All (All (λ b. b < 256)) (tokens s)
tokens-All s h = tokens_from-All s [] h tt
