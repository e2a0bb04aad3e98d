-- ===== src/Message/Search/Iteration.antt =====
-- protocol/message/search.go: the loop over Next and SearchTerm gives the terms with the action.
use adcl.Prelude.{
  ℕ, zero, suc, ◌+◌, ◌<◌, ◌≤◌, ◌≡◌, refl, ap, ◌∙◌, sym, Bool, true, false, not, List, [], ◌∷◌,
  Option, some, arith, leb, if◌then◌else◌, length, get_elem?, drop, drop-drop, length-drop,
  Bool-cases, inl, inr,
}
use adcl.Message.Search.{
  SearchTermAction, undefined, include, exclude, extension, SearchTerm, same_action,
  SearchTermIterator, seek, next, search_term,
}

-- Which terms a filter lets through: `undefined` all of them, another action its own.
abbrev pub passes : SearchTermAction → SearchTerm → Bool
passes undefined t = true
passes action t = same_action t.term_action action

abbrev pub passing : SearchTermAction → List SearchTerm → List SearchTerm
passing action [] = []
passing action (t ∷ ts) = if passes action t then t ∷ passing action ts else passing action ts

-- The documented loop: `for it.Next() { it.SearchTerm() }`, with a bound on its rounds.
unfoldable pub collect_round :
    (SearchTermIterator → List (Option SearchTerm))
    → Bool × SearchTermIterator
    → List (Option SearchTerm)
collect_round again (true, it) = search_term it ∷ again it
collect_round again (false, it) = []

unfoldable pub collect : ℕ → SearchTermIterator → List (Option SearchTerm)
collect zero it = []
collect (suc fuel) it = collect_round (collect fuel) (next it)

abbrev pub somes : List SearchTerm → List (Option SearchTerm)
somes [] = []
somes (t ∷ ts) = some t ∷ somes ts

-- How many terms stand before the first that passes.
skipped : SearchTermAction → List SearchTerm → ℕ
skipped action [] = 0
skipped action (t ∷ ts) = if passes action t then 0 else suc (skipped action ts)

module _ (terms : List SearchTerm) (action : SearchTermAction) where
  -- The iterator that was just made, and the one whose last term stands at `pos`.
  abbrev pub fresh : SearchTermIterator
  fresh = record { search_terms = terms; filter = action; initialised = false; pos = 0 }

  abbrev at : ℕ → SearchTermIterator
  at pos = record { search_terms = terms; filter = action; initialised = true; pos = pos }

seek_lem :
    (action : SearchTermAction) (ts : List SearchTerm) (start : ℕ)
    → (if not (same_action action undefined) then seek action ts start else start)
      ≡ start + skipped action ts
unfolding seek skipped
seek_lem undefined [] start = omega arith
seek_lem undefined (t ∷ ts) start = omega arith
seek_lem include [] start = omega arith
seek_lem exclude [] start = omega arith
seek_lem extension [] start = omega arith
seek_lem include (t ∷ ts) start = ground (arith, seek_lem include ts (suc start))
seek_lem exclude (t ∷ ts) start = ground (arith, seek_lem exclude ts (suc start))
seek_lem extension (t ∷ ts) start = ground (arith, seek_lem extension ts (suc start))

-- Where a search stops: behind the terms, or at the next one that passes.
data Found (action : SearchTermAction) (ts : List SearchTerm) : Type 0 where
  past : skipped action ts ≡ length ts → passing action ts ≡ [] → Found action ts
  stopped :
      (t : SearchTerm)
      → skipped action ts < length ts
      → get_elem? ts (skipped action ts) ≡ some t
      → passing action ts ≡ t ∷ passing action (drop (suc (skipped action ts)) ts)
      → Found action ts

find : (action : SearchTermAction) (ts : List SearchTerm) → Found action ts
unfolding skipped
find action [] = past refl refl
find action (t ∷ ts) = elim (Bool-cases (passes action t)) [
  | inl passed ↦ stopped t (rw passed (omega arith)) (rw passed refl) (rw passed refl)
  | inr other ↦ elim (find action ts) [
    | past end none_left ↦ past (rw other (ap suc end)) (rw other none_left)
    | stopped t1 inside here others ↦
        stopped t1 (rw other (omega arith)) (rw other here) (rw other others)
  ]
]

get_elem?-drop :
    (n i j : ℕ) (ts : List SearchTerm) → j ≡ n + i → get_elem? (drop n ts) i ≡ get_elem? ts j
get_elem?-drop zero i j ts e = ap (get_elem? ts) (omega arith)
get_elem?-drop (suc n) i j [] e = refl
get_elem?-drop (suc n) i (suc j) (t ∷ ts) e = get_elem?-drop n i j ts (omega arith)
get_elem?-drop (suc n) i zero (t ∷ ts) e = absurd (omega arith)

leb-true : (a b : ℕ) → a ≤ b → leb a b ≡ true
leb-true a b h = ground arith

leb-false : (a b : ℕ) → b < a → leb a b ≡ false
leb-false a b h = ground arith

module _ (terms : List SearchTerm) (action : SearchTermAction) where
  next-at :
      (p : ℕ)
      → next (at terms action p) ≡ (
        not (leb (length terms) (suc p + skipped action (drop (suc p) terms))),
        at terms action (suc p + skipped action (drop (suc p) terms)),
      )
  unfolding next
  next-at p = rw (seek_lem action (drop (suc p) terms) (suc p)) refl

  search_term-at : (p : ℕ) → p < length terms → search_term (at terms action p) ≡ get_elem? terms p
  unfolding search_term
  search_term-at p h = ground arith

  collect_from :
      (fuel p : ℕ)
      → length (drop p terms) ≤ fuel
      → collect_round (collect fuel) (
        not (leb (length terms) (p + skipped action (drop p terms))),
        at terms action (p + skipped action (drop p terms)),
      )
        ≡ somes (passing action (drop p terms))
  unfolding collect_round collect
  collect_from zero p enough = elim (find action (drop p terms)) [
    | past end none_left ↦
        rw
          (
            leb-true (length terms) (p + skipped action (drop p terms))
                (ground (arith, length-drop p terms)),
            none_left,
          )
          refl
    | stopped t inside here others ↦ absurd (omega arith)
  ]
  collect_from (suc f) p enough = elim (find action (drop p terms)) [
    | past end none_left ↦
        rw
          (
            leb-true (length terms) (p + skipped action (drop p terms))
                (ground (arith, length-drop p terms)),
            none_left,
          )
          refl
    | stopped t inside here others ↦
        rw
          (
            leb-false (length terms) (p + skipped action (drop p terms))
                (ground (arith, length-drop p terms)),
            others,
          )
          (ap (λ x. x ∷ collect (suc f) (at terms action stop))
              (search_term-at stop (omega (arith, length-drop p terms))
                ∙ sym (get_elem?-drop p (skipped action (drop p terms)) stop terms refl)
                ∙ here)
            ∙ ap (λ x. some t ∷ collect_round (collect f) x) (next-at stop)
            ∙ ap (◌∷◌ (some t)) (
                collect_from f (suc stop)
                  (omega (arith, length-drop p terms, length-drop (suc stop) terms))
                ∙ ap (λ ts. somes (passing action ts))
                    (sym (
                      drop-drop p (suc (skipped action (drop p terms))) (suc stop) terms
                        (omega arith)))))
  ]
    where
      stop : ℕ
      stop = p + skipped action (drop p terms)

  -- The documented loop over a new iterator gives the terms that its filter lets through, in
  -- their order, in one round more than there are terms at most.
  pub collect-fresh :
      (fuel : ℕ)
      → length terms < fuel
      → collect fuel (fresh terms action) ≡ somes (passing action terms)
  unfolding collect next
  collect-fresh (suc fuel) enough = rw (seek_lem action terms 0) (collect_from fuel 0 (omega arith))
  collect-fresh zero enough = absurd (omega arith)
