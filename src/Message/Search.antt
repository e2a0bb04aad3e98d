-- ===== src/Message/Search.antt =====
-- protocol/message/search.go: search terms, and the iterator over those with one action.
pub mod Iteration
use adcl.Prelude.{
  ℕ, zero, suc, Bool, true, false, not, ◌||◌, Bytes, List, [], ◌∷◌, Option, none, some, leb,
  if◌then◌else◌, length, get_elem?, drop,
}

pub data SearchTermAction : Type 0 where
  undefined include exclude extension : SearchTermAction

pub record SearchTerm : Type 0 where
  pub term_action : SearchTermAction
  pub term : Bytes

abbrev pub same_action : SearchTermAction → SearchTermAction → Bool
same_action undefined undefined = true
same_action include include = true
same_action exclude exclude = true
same_action extension extension = true
same_action _ _ = false

pub record SearchTermIterator : Type 0 where
  pub search_terms : List SearchTerm
  pub filter : SearchTermAction
  pub initialised : Bool
  pub pos : ℕ

-- The loop of Next, on the terms from `pos` on: where it stops.
unfoldable pub seek : SearchTermAction → List SearchTerm → ℕ → ℕ
seek action [] pos = pos
seek action (t ∷ ts) pos =
    let later = seek action ts (suc pos) in if same_action t.term_action action then pos else later

unfoldable pub next : SearchTermIterator → Bool × SearchTermIterator
next s =
    let start = if s.initialised then suc s.pos else s.pos in
    let stop =
      if not (same_action s.filter undefined)
      then seek s.filter (drop start s.search_terms) start
      else start in
    (not (leb (length s.search_terms) stop), record s { initialised = true; pos = stop })

-- `none` is nil.
unfoldable pub search_term : SearchTermIterator → Option SearchTerm
search_term s =
    if not s.initialised || leb (length s.search_terms) s.pos
    then none
    else get_elem? s.search_terms s.pos
