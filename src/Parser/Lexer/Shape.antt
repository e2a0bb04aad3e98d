-- ===== src/Parser/Lexer/Shape.antt =====
-- protocol/parser/lexer.go: what the loops of `readNext` and `Put` do at each form that the unread
-- part of the line can have.
use adcl.Prelude.{
  ℕ, suc, ◌+◌, ◌-◌, ◌≡◌, ◌≢◌, refl, ap, ◌∙◌, Bytes, [], ◌∷◌, ◌++◌, ok, err, eof, ◌==◌, length, take,
  All, arith, Bool-cases, inl, inr, length-append, drop_append, take_append, ==_iff, ==_refl,
}
use adcl.Stdlib.Strings.{
  index_byte, index_byte-none, index_byte-append, last_index_byte-last, last_index_byte_other,
  Lacks, FirstByte, nowhere, behind, first_byte,
}
use adcl.Parser.Lexer.{space, Lexer, read_loop, read_next, advance, next, put_end}

abbrev pub Spaces : Bytes → Type 0
Spaces = All (λ c. c ≡ space)

abbrev pub IsToken : Bytes → Type 0
IsToken w = (w ≢ []) × Lacks space w

-- Spaces only; a token at the end; or a token with a space behind it.
pub data Shape : Bytes → Type 0 where
  blank : {s : Bytes} → Spaces s → Shape s
  final : {s : Bytes} (gap tok : Bytes) → Spaces gap → IsToken tok → s ≡ gap ++ tok → Shape s
  inner :
      {s : Bytes} (gap tok rest : Bytes)
      → Spaces gap
      → IsToken tok
      → s ≡ gap ++ (tok ++ (space ∷ rest))
      → Shape s

Shape-cons : {s : Bytes} (c : ℕ) → c ≡ space → Shape s → Shape (c ∷ s)
Shape-cons c h (blank g) = blank (h, g)
Shape-cons c h (final gap tok g t e) = final (c ∷ gap) tok (h, g) t (ap (◌∷◌ c) e)
Shape-cons c h (inner gap tok rest g t e) = inner (c ∷ gap) tok rest (h, g) t (ap (◌∷◌ c) e)

Shape-token : (c : ℕ) (cs : Bytes) → c ≢ space → FirstByte space (c ∷ cs) → Shape (c ∷ cs)
Shape-token c cs h (nowhere k) = final [] (c ∷ cs) tt (cc, k) refl
Shape-token c cs h (behind [] rest k e) = absurd (h (cc))
Shape-token c cs h (behind (d ∷ w) rest k e) = inner [] (d ∷ w) rest tt (cc, k) e

pub shape : (s : Bytes) → Shape s
shape [] = blank tt
shape (c ∷ cs) = elim (Bool-cases (c == space)) [
  | inl same ↦ Shape-cons c ((==_iff c space).0 same) (shape cs)
  | inr other ↦ Shape-token c cs (ground arith) (first_byte space (c ∷ cs))
]

-- The unread part `xs` behind the part that was read.
abbrev pub at : Bytes → Bytes → Lexer
at pre xs = record { s = pre ++ xs; offset = length pre }

module _ (s : Bytes) (offset : ℕ) where
  read_loop-blank : (start : ℕ) (gap : Bytes) → Spaces gap → read_loop s offset start gap ≡ err eof
  unfolding read_loop index_byte
  read_loop-blank start [] g = refl
  read_loop-blank start (c ∷ gap) (h, g) = ground (arith, read_loop-blank (start + 1) gap g)

  read_loop-gap :
      (start : ℕ) (gap xs : Bytes)
      → Spaces gap
      → read_loop s offset start (gap ++ xs) ≡ read_loop s offset (start + length gap) xs
  unfolding read_loop index_byte
  read_loop-gap start [] xs g = ap (λ n. read_loop s offset n xs) (omega arith)
  read_loop-gap start (c ∷ gap) xs (h, g) =
      rw (h, read_loop)
        (read_loop-gap (start + 1) gap xs g ∙ ap (λ n. read_loop s offset n xs) (omega arith))

  read_loop-final :
      (start : ℕ) (tok : Bytes)
      → IsToken tok
      → read_loop s offset start tok ≡ ok (tok, length s - offset)
  unfolding read_loop
  read_loop-final start [] (n, l) = absurd (n refl)
  read_loop-final start (c ∷ cs) (n, l) = rw (index_byte-none space (c ∷ cs) l, read_loop)

  read_loop-inner :
      (start : ℕ) (tok rest : Bytes)
      → IsToken tok
      → read_loop s offset start (tok ++ (space ∷ rest))
        ≡ ok (tok, (start - offset) + length tok + 1)
  unfolding read_loop
  read_loop-inner start [] rest (n, l) = absurd (n refl)
  read_loop-inner start (c ∷ cs) rest (n, l) = rw (
    index_byte-append space (c ∷ cs) rest l,
    read_loop,
    take_append (length cs) cs (space ∷ rest) refl,
  )

read_next-at :
    (pre xs : Bytes) → read_next (at pre xs) ≡ read_loop (pre ++ xs) (length pre) (length pre) xs
unfolding read_next
read_next-at pre xs =
    rw (drop_append (length pre) pre xs refl) (ground (arith, length-append pre xs))

next-read_next :
    (l : Lexer) {tok : Bytes} {n : ℕ}
    → read_next l ≡ ok (tok, n)
    → next l ≡ (ok tok, record l { offset = l.offset + n })
unfolding next
next-read_next l h = ap (advance l) h

module _ (pre gap : Bytes) (g : Spaces gap) where
  pub next-blank : next (at pre gap) ≡ (err eof, at pre gap)
  unfolding next
  next-blank =
      ap (advance (at pre gap))
        (read_next-at pre gap ∙ read_loop-blank (pre ++ gap) (length pre) (length pre) gap g)

  read_next-gap :
      (xs : Bytes)
      → read_next (at pre (gap ++ xs))
        ≡ read_loop (pre ++ (gap ++ xs)) (length pre) (length pre + length gap) xs
  read_next-gap xs =
      read_next-at pre (gap ++ xs)
      ∙ read_loop-gap (pre ++ (gap ++ xs)) (length pre) (length pre) gap xs g

  module _ (tok : Bytes) (t : IsToken tok) where
    pub next-final :
        next (at pre (gap ++ tok))
        ≡ (ok tok, record { s = pre ++ (gap ++ tok); offset = length (pre ++ (gap ++ tok)) })
    next-final =
        next-read_next (at pre (gap ++ tok)) (read_next-gap tok ∙ read_loop-final _ _ _ tok t)
        ∙ ap (λ n. (ok tok, record { s = pre ++ (gap ++ tok); offset = n }))
            (omega (arith, length-append pre (gap ++ tok)))

    pub next-inner :
        (rest : Bytes)
        → next (at pre (gap ++ (tok ++ (space ∷ rest)))) ≡ (
          ok tok,
          record {
            s = pre ++ (gap ++ (tok ++ (space ∷ rest)));
            offset = length pre + length gap + length tok + 1;
          },
        )
    next-inner rest =
        next-read_next (at pre (gap ++ (tok ++ (space ∷ rest))))
          (read_next-gap (tok ++ (space ∷ rest)) ∙ read_loop-inner _ _ _ tok rest t)
        ∙ ap (λ n. (ok tok, record { s = pre ++ (gap ++ (tok ++ (space ∷ rest))); offset = n }))
            (omega arith)

module _ (s p : Bytes) (e : ℕ) (h : e ≡ length p) where
  pub put_end-space : take (suc e) s ≡ p ++ (space ∷ []) → put_end s (suc e) ≡ put_end s e
  unfolding put_end
  put_end-space k = rw (k, put_end, last_index_byte-last space p, h) (rw (==_refl (length p)))

  pub put_end-other :
      (c : ℕ) → c ≢ space → take (suc e) s ≡ p ++ (c ∷ []) → put_end s (suc e) ≡ ok (suc e)
  unfolding put_end
  put_end-other c n k = rw (k, put_end) (ground (arith, last_index_byte_other space c p n))
