-- ===== src/Parser/Lexer/PutBack.antt =====
-- protocol/parser/lexer.go: `Put` gives the last token back to `Next`.
use mathlib.Core.Path.{subst}
use adcl.Prelude.{
  ℕ, zero, suc, ◌+◌, ◌-◌, ◌≤◌, ◌≡◌, ◌≢◌, refl, sym, ap, ◌∙◌, Bytes, [], ◌∷◌, ◌++◌, Result, ok,
  panic, equal_refl, length, take, arith, length-append, length-take, drop_append, take_append,
  take_append_add, append-nil, append_assoc,
}
use adcl.Stdlib.Strings.{Lacks}
use adcl.Parser.Lexer.{space, Lexer, next, put_end, put}
use adcl.Parser.Lexer.Shape.{
  Spaces, IsToken, Shape, blank, final, inner, shape, at, next-blank, next-final, next-inner,
  put_end-space, put_end-other,
}
use adcl.Parser.Lexer.Tokens.{IsInBounds, unread, at_lem}

-- A text that is not empty has a last byte.
data Last : Bytes → Type 0 where
  snoc : {s : Bytes} (w : Bytes) (c : ℕ) → s ≡ w ++ (c ∷ []) → Last s

last : (s : Bytes) → s ≢ [] → Last s
last [] n = absurd (n refl)
last (c ∷ []) n = snoc [] c refl
last (c ∷ d ∷ ds) n = longer (last (d ∷ ds) (cc))
  where
    longer : Last (d ∷ ds) → Last (c ∷ d ∷ ds)
    longer (snoc w x e) = snoc (c ∷ w) x (ap (◌∷◌ c) e)

Lacks-last : (b : ℕ) (w : Bytes) (c : ℕ) → Lacks b (w ++ (c ∷ [])) → c ≢ b
Lacks-last b [] c (n, _) = n
Lacks-last b (d ∷ w) c (_, h) = Lacks-last b w c h

module _ (p rest : Bytes) where
  put_end-last :
      (w : Bytes) (c : ℕ)
      → c ≢ space
      → put_end (p ++ ((w ++ (c ∷ [])) ++ rest)) (length p + (length w + 1))
        ≡ ok (length p + (length w + 1))
  put_end-last w c n =
      let e : length p + (length w + 1) ≡ suc (length p + length w) = omega arith in
      rw e (
        put_end-other _ (p ++ w) (length p + length w) (omega (arith, length-append p w)) c n (
          take_append_add (suc (length p + length w)) (length w + 1) p _ (omega arith)
          ∙ ap (λ x. p ++ x)
              (take_append (length w + 1) (w ++ (c ∷ [])) rest
                (omega (arith, length-append w (c ∷ []))))
          ∙ sym (append_assoc p w (c ∷ []))))

  module _ (tok : Bytes) (t : IsToken tok) where
    put_end-token :
        put_end (p ++ (tok ++ rest)) (length p + length tok) ≡ ok (length p + length tok)
    put_end-token = go (last tok t.0)
      where
        go :
            Last tok
            → put_end (p ++ (tok ++ rest)) (length p + length tok) ≡ ok (length p + length tok)
        go (snoc w c e) =
            let n : c ≢ space = Lacks-last space w c (subst (Lacks space) e t.1) in
            let k : length w + 1 ≡ length (w ++ (c ∷ [])) =
              omega (arith, length-append w (c ∷ [])) in
            subst (λ x. put_end (p ++ (x ++ rest)) (length p + length x) ≡ ok (length p + length x))
              (sym e)
              (subst
                (λ j. put_end (p ++ ((w ++ (c ∷ [])) ++ rest)) (length p + j) ≡ ok (length p + j)) k
                (put_end-last w c n))

    -- From wherever the backward search meets the token, `Put` goes to its first byte.
    put-token :
        (o : ℕ)
        → o ≤ length (p ++ (tok ++ rest))
        → put_end (p ++ (tok ++ rest)) o ≡ ok (length p + length tok)
        → put (record { s = p ++ (tok ++ rest); offset = o }) tok
          ≡ (ok tt, record { s = p ++ (tok ++ rest); offset = length p })
    unfolding put
    put-token o h e =
        let d : (length p + length tok) - length tok ≡ length p = omega arith in
        rw
          (
            e,
            d,
            drop_append (length p) p (tok ++ rest) refl,
            take_append (length tok) tok rest refl,
            equal_refl tok,
          )
          (ground arith)

-- `Put` of the token on the lexer that `Next` left, and `Next` again, is `Next`.
abbrev pub PutBack : Bytes → Lexer → Type 0
PutBack tok l = (l' : Lexer) × (put l tok ≡ (ok tt, l')) × (next l' ≡ (ok tok, l))

abbrev Back : Result Bytes × Lexer → Type 0
Back (ok tok, l) = PutBack tok l
Back (_, l) = Unit

module _ (p tok : Bytes) (t : IsToken tok) where
  PutBack-final : PutBack tok (record { s = p ++ tok; offset = length (p ++ tok) })
  PutBack-final =
      let q : p ++ (tok ++ []) ≡ p ++ tok = rw append-nil in
      let e : length p + length tok ≡ length (p ++ tok) = omega (arith, length-append p tok) in
      (
        at p tok,
        subst
            (λ x.
              put (record { s = x; offset = length (p ++ tok) }) tok
              ≡ (ok tt, record { s = x; offset = length p }))
            q
            (put-token p [] tok t (length (p ++ tok)) (rw q (omega arith)) (
              subst (λ n. put_end (p ++ (tok ++ [])) n ≡ ok (length p + length tok)) e
                (put_end-token p [] tok t))),
        next-final p [] tt tok t,
      )

  PutBack-inner :
      (rest : Bytes) (o : ℕ)
      → o ≡ length p + length tok + 1
      → PutBack tok (record { s = p ++ (tok ++ (space ∷ rest)); offset = o })
  PutBack-inner rest o e =
      let e' : o ≡ suc (length p + length tok) = omega arith in
      (
        at p (tok ++ (space ∷ rest)),
        put-token p (space ∷ rest) tok t o
            (omega
              (arith, length-append p (tok ++ (space ∷ rest)), length-append tok (space ∷ rest)))
            (rw e' (
              put_end-space _ (p ++ tok) (length p + length tok)
                (omega (arith, length-append p tok))
                (take_append_add (suc (length p + length tok)) (length tok + 1) p _ (omega arith)
                  ∙ ap (λ x. p ++ x) (take_append_add (length tok + 1) 1 tok (space ∷ rest) refl)
                  ∙ sym (append_assoc p tok (space ∷ [])))
              ∙ put_end-token p (space ∷ rest) tok t)),
        next-inner p [] tt tok t rest
            ∙ ap (λ n. (ok tok, record { s = p ++ (tok ++ (space ∷ rest)); offset = n }))
                (omega arith),
      )

Back-at : (pre xs : Bytes) → Shape xs → Back (next (at pre xs))
Back-at pre xs (blank g) = rw (next-blank pre xs g) tt
Back-at pre xs (final gap tok g t e) =
    subst (λ x. Back (next (at pre x))) (sym e)
      (rw (next-final pre gap g tok t) (
        subst (λ x. PutBack tok (record { s = x; offset = length x })) (append_assoc pre gap tok)
          (PutBack-final (pre ++ gap) tok t)))
Back-at pre xs (inner gap tok rest g t e) =
    subst (λ x. Back (next (at pre x))) (sym e)
      (rw (next-inner pre gap g tok t rest) (
        subst
          (λ x. PutBack tok (record { s = x; offset = length pre + length gap + length tok + 1 }))
          (append_assoc pre gap (tok ++ (space ∷ rest)))
          (PutBack-inner (pre ++ gap) tok t rest _ (omega (arith, length-append pre gap)))))

-- A token that `Next` gave can be put back: `Put` succeeds, and `Next` then gives the same token
-- and leaves the same lexer.
pub put-next :
    (l : Lexer) (tok : Bytes) (l' : Lexer)
    → IsInBounds l
    → next l ≡ (ok tok, l')
    → (l'' : Lexer) × (put l' tok ≡ (ok tt, l'')) × (next l'' ≡ (ok tok, l'))
put-next l tok l' h e = subst Back e (
    subst (λ k. Back (next k)) (at_lem l h)
      (Back-at (take l.offset l.s) (unread l) (shape (unread l))))

take-Spaces :
    (n : ℕ) (s : Bytes)
    → suc n ≤ length s
    → Spaces (take (suc n) s)
    → (take (suc n) s ≡ take n s ++ (space ∷ [])) × Spaces (take n s)
take-Spaces n [] k g = absurd (omega arith)
take-Spaces zero (c ∷ s) k (h, g) = (ap (λ x. x ∷ []) h, tt)
take-Spaces (suc n) (c ∷ s) k (h, g) =
    let (e, g') = take-Spaces n s (omega arith) g in (ap (◌∷◌ c) e, (h, g'))

put_end-Spaces : (n : ℕ) (s : Bytes) → n ≤ length s → Spaces (take n s) → put_end s n ≡ panic
put_end-Spaces zero s k g = unfold put_end in refl
put_end-Spaces (suc n) s k g =
    let (e, g') = take-Spaces n s k g in
    put_end-space s (take n s) n (omega (arith, length-take n s)) e
    ∙ put_end-Spaces n s (omega arith) g'

-- Before any token was read, `Put` of any token panics: it does not return ErrInvalidToken.
put_panics :
    (l : Lexer) (tok : Bytes) → IsInBounds l → Spaces (take l.offset l.s) → put l tok ≡ (panic, l)
unfolding put
put_panics l tok h g = rw (put_end-Spaces l.offset l.s h g) (ground arith)
