-- ===== src/Parser/Lexer/PutAll.antt =====
-- protocol/parser/lexer.go: `Put` on every branch.
use adcl.Prelude.{
  ℕ, zero, suc, ◌-◌, ◌≤◌, ◌≡◌, ◌≢◌, refl, sym, ap, ◌∙◌, Bool, true, false, ◌&&◌, ◌||◌, Bytes, [],
  ◌∷◌, ◌++◌, Result, ok, err, panic, invalid_token, equal, ◌==◌, if◌then◌else◌, ltb, leb, length,
  take, drop, arith, length-append, length-take, length-drop, take_append, append_assoc,
  take-append-drop, Bool-cases, inl, inr, ==_iff,
}
use adcl.Stdlib.Bufio.{drop_before}
use adcl.Parser.Lexer.{space, Lexer, put_end, put_at, put}
use adcl.Parser.Lexer.Shape.{put_end-space, put_end-other}
use adcl.Parser.Lexer.Tokens.{IsInBounds}

abbrev pub is_nil : Bytes → Bool
is_nil [] = true
is_nil (c ∷ cs) = false

-- The text without the spaces at its end.
abbrev pub trim : Bytes → Bytes
trim [] = []
trim (c ∷ cs) = let rest = trim cs in if is_nil rest && c == space then [] else c ∷ rest

trim-space : (u : Bytes) → trim (u ++ (space ∷ [])) ≡ trim u
trim-space [] = refl
trim-space (c ∷ u) = rw (trim-space u) refl

trim-other : (u : Bytes) (x : ℕ) → x ≢ space → trim (u ++ (x ∷ [])) ≡ u ++ (x ∷ [])
trim-other [] x n = ground (arith, n)
trim-other (c ∷ []) x n = rw (trim-other [] x n) (ground arith)
trim-other (c ∷ d ∷ u) x n = rw (trim-other (d ∷ u) x n) (ground arith)

trim-prefix : (u : Bytes) → (v : Bytes) × (u ≡ trim u ++ v)
trim-prefix [] = ([], refl)
trim-prefix (c ∷ u) = elim (Bool-cases (is_nil (trim u) && c == space)) [
  | inl gone ↦ (c ∷ u, rw gone refl)
  | inr stays ↦ let (v, e) = trim-prefix u in (v, rw stays (ap (◌∷◌ c) e))
]

take-snoc :
    (n : ℕ) (s : Bytes) → suc n ≤ length s → (x : ℕ) × (take (suc n) s ≡ take n s ++ (x ∷ []))
take-snoc n [] k = absurd (omega (arith, k))
take-snoc zero (c ∷ s) k = (c, refl)
take-snoc (suc n) (c ∷ s) k = let (x, e) = take-snoc n s (omega (arith, k)) in (x, ap (◌∷◌ c) e)

-- Where the backward search ends.
abbrev found_end : Bytes → Result ℕ
found_end head = if is_nil head then panic else ok (length head)

found_end_snoc : (u : Bytes) (x n : ℕ) → n ≡ length u → ok (suc n) ≡ found_end (u ++ (x ∷ []))
found_end_snoc [] x n e = ground (arith, e)
found_end_snoc (c ∷ u) x n e = ground (arith, e, length-append u (x ∷ []))

put_end-trim : (n : ℕ) (s : Bytes) → n ≤ length s → put_end s n ≡ found_end (trim (take n s))
put_end-trim zero s k = unfold put_end in refl
put_end-trim (suc n) s k =
    let (x, e) = take-snoc n s k in
    let len : n ≡ length (take n s) = omega (arith, k, length-take n s) in
    elim (Bool-cases (x == space)) [
      | inl same ↦
          let spaced : take (suc n) s ≡ take n s ++ (space ∷ []) =
            e ∙ ap (λ c. take n s ++ (c ∷ [])) ((==_iff x space).0 same) in
          put_end-space s (take n s) n len spaced
          ∙ put_end-trim n s (omega (arith, k))
          ∙ ap found_end (sym (ap trim spaced ∙ trim-space (take n s)))
      | inr other ↦
          let differs : x ≢ space = ground (arith, other) in
          put_end-other s (take n s) n len x differs e
          ∙ found_end_snoc (take n s) x n len
          ∙ ap found_end (sym (ap trim e ∙ trim-other (take n s) x differs))
    ]

-- The token that is put back against the end of what was read.
abbrev pub put_result : Bytes → Bytes → Lexer → Result (Unit {0}) × Lexer
put_result head tok l =
    if is_nil head || ltb (length head) (length tok)
    then (panic, l)
    else if equal (drop (length head - length tok) head) tok
    then (ok tt, record l { offset = length head - length tok })
    else (err invalid_token, l)

slice-suffix :
    (k : ℕ) (head more : Bytes)
    → k ≤ length head
    → take k (drop (length head - k) (head ++ more)) ≡ drop (length head - k) head
slice-suffix k head more h =
    ap (take k) (drop_before (length head - k) head more (omega (arith, h)))
    ∙ take_append k (drop (length head - k) head) more
        (omega (arith, h, length-drop (length head - k) head))

trimmed_slice :
    (n k : ℕ) (s : Bytes)
    → k ≤ length (trim (take n s))
    → take k (drop (length (trim (take n s)) - k) s)
      ≡ drop (length (trim (take n s)) - k) (trim (take n s))
trimmed_slice n k s h =
    let head = trim (take n s) in
    let (v, e) = trim-prefix (take n s) in
    let split : s ≡ head ++ (v ++ drop n s) =
      sym (take-append-drop n s) ∙ ap (λ u. u ++ drop n s) e ∙ append_assoc head v (drop n s) in
    ap (λ u. take k (drop (length head - k) u)) split ∙ slice-suffix k head (v ++ drop n s) h

-- Put on a lexer that is in its bounds: before any token was read it panics, and so it does for a
-- text longer than what was read up to the end of the last token. Otherwise it goes back by the
-- text if what was read ends with it, be it the last token or not, and returns ErrInvalidToken and
-- leaves the lexer alone if not.
pub put_lem :
    (l : Lexer) (tok : Bytes)
    → IsInBounds l
    → put l tok ≡ put_result (trim (take l.offset l.s)) tok l
unfolding put put_at
put_lem l tok h =
    let head = trim (take l.offset l.s) in
    let found = put_end-trim l.offset l.s h in
    let inside : leb l.offset (length l.s) ≡ true = ground (arith, h) in
    elim (Bool-cases (is_nil head)) [
      | inl nothing ↦ rw (inside, found, nothing) refl
      | inr some_text ↦ elim (Bool-cases (ltb (length head) (length tok))) [
        | inl long ↦ rw (inside, found, some_text, long) refl
        | inr short ↦
            rw
              (
                inside,
                found,
                some_text,
                short,
                trimmed_slice l.offset (length tok) l.s (ground (arith, short)),
              )
              refl
      ]
    ]
